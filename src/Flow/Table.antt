-- ===== src/Flow/Table.antt =====
-- The map of flows: its lookups after each change, and the oldest entry.
use ge_sensor.Prelude.{
  ℕ, ◌+◌, ◌≤◌, ◌≡◌, refl, sym, subst, ◌∙◌, ◌⊎◌, inl, inr, true, none, some, [], ◌∷◌, arith, ltb,
  if◌then◌else◌, Bool-cases, length, All, value_or,
}
use ge_sensor.Flow.{
  FlowKey, FlowRecord, FlowMap, key_eq, get, remove, touch, new_record, earlier, oldest_of,
  find_oldest_flow, is_none,
}
use ge_sensor.Flow.Keys.{key_eq_iff}

-- No key occurs twice.
abbrev pub Distinct : FlowMap → Type 0
Distinct [] = Unit
Distinct ((k, r) ∷ m) = (get k m ≡ none) × Distinct m

pub key_eq_refl : (k : FlowKey) → key_eq k k ≡ true
key_eq_refl k = (key_eq_iff k k).1 refl

module _ (created : ℕ) (key : FlowKey) (f : FlowRecord → FlowRecord) where
  -- A lookup after the entry was touched.
  pub get-touch :
      (j : FlowKey) (m : FlowMap)
      → get j (touch created key f m) ≡ (
          if key_eq key j
          then some (f (value_or (new_record created key) (get key m)))
          else get j m)
  unfolding get touch
  get-touch j [] = refl
  get-touch j ((k, r) ∷ m) =
      ground (arith, key_eq_iff k key, key_eq_iff k j, key_eq_iff key j, get-touch j m)

  pub length-touch :
      (m : FlowMap)
      → length (touch created key f m) ≡ (if is_none (get key m) then length m + 1 else length m)
  unfolding get touch
  length-touch [] = refl
  length-touch ((k, r) ∷ m) = ground (arith, length-touch m)

  pub touch-Distinct : (m : FlowMap) → Distinct m → Distinct (touch created key f m)
  unfolding get touch
  touch-Distinct [] d = (refl, tt)
  touch-Distinct ((k, r) ∷ m) d =
      ground (arith, touch-Distinct m d.1, get-touch k m, key_eq_iff k key, key_eq_iff key k)

pub get-remove :
    (key j : FlowKey) (m : FlowMap)
    → Distinct m
    → get j (remove key m) ≡ (if key_eq key j then none else get j m)
unfolding get remove
get-remove key j [] d = ground arith
get-remove key j ((k, r) ∷ m) d =
    ground (arith, key_eq_iff k key, key_eq_iff k j, key_eq_iff key j, get-remove key j m d.1)

pub length-remove :
    (key : FlowKey) (m : FlowMap) (r : FlowRecord)
    → get key m ≡ some r
    → length (remove key m) + 1 ≡ length m
unfolding get remove
length-remove key [] r e = cc
length-remove key ((k, q) ∷ m) r e = ground (arith, length-remove key m r)

pub remove-Distinct : (key : FlowKey) (m : FlowMap) → Distinct m → Distinct (remove key m)
unfolding remove
remove-Distinct key [] d = tt
remove-Distinct key ((k, r) ∷ m) d =
    ground (arith, remove-Distinct key m d.1, get-remove key k m d.1)

-- At most as recent as every entry of the map.
abbrev pub Oldest : ℕ → FlowMap → Type 0
Oldest time = All (λ kr. time ≤ kr.1.last_seen)

Oldest-le : (a b : ℕ) (m : FlowMap) → a ≤ b → Oldest b m → Oldest a m
Oldest-le a b [] h o = tt
Oldest-le a b (kr ∷ m) h o = (omega (arith, o.0), Oldest-le a b m h o.1)

earlier_cases : (best kr : FlowKey × FlowRecord) → (earlier best kr ≡ kr) ⊎ (earlier best kr ≡ best)
unfolding earlier
earlier_cases best kr = elim (Bool-cases (ltb kr.1.last_seen best.1.last_seen)) [
  | inl newer ↦ inl (rw newer)
  | inr older ↦ inr (rw older)
]

earlier-le :
    (best kr : FlowKey × FlowRecord)
    → ((earlier best kr).1.last_seen ≤ best.1.last_seen)
      × ((earlier best kr).1.last_seen ≤ kr.1.last_seen)
unfolding earlier
earlier-le best kr = ground arith

oldest_of-Oldest :
    (best : FlowKey × FlowRecord) (m : FlowMap) → Oldest (oldest_of best m).1.last_seen (best ∷ m)
unfolding oldest_of
oldest_of-Oldest best [] = (omega arith, tt)
oldest_of-Oldest best (kr ∷ m) =
    let o = oldest_of-Oldest (earlier best kr) m in
    (omega (arith, o.0, earlier-le best kr), (omega (arith, o.0, earlier-le best kr), o.1))

abbrev Holds : FlowMap → FlowKey × FlowRecord → Type 0
Holds m kr = get kr.0 m ≡ some kr.1

head-Holds : (kr : FlowKey × FlowRecord) (m : FlowMap) → Holds (kr ∷ m) kr
unfolding get
head-Holds kr m = rw (key_eq_refl kr.0)

tail-Holds :
    (kr : FlowKey × FlowRecord) (m : FlowMap) (x : FlowKey × FlowRecord)
    → Distinct (kr ∷ m)
    → Holds m x
    → Holds (kr ∷ m) x
unfolding get
tail-Holds kr m x d h = ground (arith, d.0, key_eq_iff kr.0 x.0)

oldest_of_cases :
    (best : FlowKey × FlowRecord) (m : FlowMap)
    → Distinct m
    → (oldest_of best m ≡ best) ⊎ Holds m (oldest_of best m)
unfolding oldest_of
oldest_of_cases best [] d = inl refl
oldest_of_cases best (kr ∷ m) d = elim (oldest_of_cases (earlier best kr) m d.1) [
  | inl picked ↦ elim (earlier_cases best kr) [
    | inl is_kr ↦ inr (subst (Holds (kr ∷ m)) (sym (picked ∙ is_kr)) (head-Holds kr m))
    | inr is_best ↦ inl (picked ∙ is_best)
  ]
  | inr later ↦ inr (tail-Holds kr m (oldest_of (earlier best kr) m) d later)
]

-- What `find_oldest_flow` finds: nothing in the empty map only, else the key of an entry that is
-- at most as recent as every other.
pub record FindsOldest (m : FlowMap) (key : FlowKey) : Type 0 where
  pub entry : FlowRecord
  pub held : get key m ≡ some entry
  pub oldest : Oldest entry.last_seen m

pub find_oldest_flow-FindsOldest :
    (kr : FlowKey × FlowRecord) (m : FlowMap)
    → Distinct (kr ∷ m)
    → (key : FlowKey) × (find_oldest_flow (kr ∷ m) ≡ some key) × FindsOldest (kr ∷ m) key
unfolding find_oldest_flow
find_oldest_flow-FindsOldest kr m d = (
  (oldest_of kr m).0,
  refl,
  record {
    entry = (oldest_of kr m).1;
    held = held (oldest_of_cases kr m d.1);
    oldest = oldest_of-Oldest kr m;
  },
)
  where
    held : (oldest_of kr m ≡ kr) ⊎ Holds m (oldest_of kr m) → Holds (kr ∷ m) (oldest_of kr m)
    held (inl is_kr) = subst (Holds (kr ∷ m)) (sym is_kr) (head-Holds kr m)
    held (inr later) = tail-Holds kr m (oldest_of kr m) d later
