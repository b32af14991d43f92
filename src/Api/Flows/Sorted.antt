-- ===== src/Api/Flows/Sorted.antt =====
-- What the list of flows of src/utils/dashboard.rs shows of the flow table.
use ge_sensor.Prelude.{
  ℕ, ◌+◌, ◌≤◌, ◌≡◌, refl, ◌∙◌, true, false, List, [], ◌∷◌, map, arith, length, retain, ◌==◌,
  Bool-cases, inl, inr,
}
use mathlib.Core.List.{Perm}
use mathlib.Core.List.Perm
use ge_sensor.Flow.{FlowRecord, FlowTracker, all_flows, active_count}
use ge_sensor.Flow.Features.{Float}
use ge_sensor.Api.Flows.{
  FlowDetailRecord, FlowsResponse, detail_of, count_protocol, insert_by_score, sort_by_score,
  count_anomalous, flow_details,
}

module _ (fl db : Float) where
  -- Nothing is less than something that is less than it, as with floats.
  abbrev pub IsAsymmetric : Type 0
  IsAsymmetric = (x y : fl.F) → fl.lt x y ≡ true → fl.lt y x ≡ false

  -- No flow scores less than the one after it.
  abbrev pub Descends : List (FlowDetailRecord fl db) → Type 0
  Descends [] = Unit
  Descends (x ∷ []) = Unit
  Descends (x ∷ y ∷ ys) = (fl.lt x.ml_score y.ml_score ≡ false) × Descends (y ∷ ys)

  insert-Perm :
      (x : FlowDetailRecord fl db) (ys : List (FlowDetailRecord fl db))
      → Perm (insert_by_score fl db x ys) (x ∷ ys)
  unfolding insert_by_score
  insert-Perm x [] = Perm.refl (x ∷ [])
  insert-Perm x (y ∷ ys) = elim (Bool-cases (fl.lt x.ml_score y.ml_score)) [
    | inl e ↦ rw e (Perm.trans (Perm.cons y (insert-Perm x ys)) (Perm.swap x y ys))
    | inr e ↦ rw e (Perm.refl (x ∷ y ∷ ys))
  ]

  sort-Perm : (xs : List (FlowDetailRecord fl db)) → Perm (sort_by_score fl db xs) xs
  unfolding sort_by_score
  sort-Perm [] = Perm.refl []
  sort-Perm (x ∷ xs) =
      Perm.trans (insert-Perm x (sort_by_score fl db xs)) (Perm.cons x (sort-Perm xs))

  length-insert :
      (x : FlowDetailRecord fl db) (ys : List (FlowDetailRecord fl db))
      → length (insert_by_score fl db x ys) ≡ length ys + 1
  unfolding insert_by_score
  length-insert x [] = omega arith
  length-insert x (y ∷ ys) = ground (arith, length-insert x ys)

  length-sort : (xs : List (FlowDetailRecord fl db)) → length (sort_by_score fl db xs) ≡ length xs
  unfolding sort_by_score
  length-sort [] = refl
  length-sort (x ∷ xs) = omega (arith, length-insert x (sort_by_score fl db xs), length-sort xs)

  module _ (asym : IsAsymmetric) where
    -- Put before a descending list that starts no higher, or with one that may go before it.
    under :
        (y x : FlowDetailRecord fl db) (ys : List (FlowDetailRecord fl db))
        → fl.lt y.ml_score x.ml_score ≡ false
        → Descends (y ∷ ys)
        → Descends (insert_by_score fl db x ys)
        → Descends (y ∷ insert_by_score fl db x ys)
    unfolding insert_by_score
    under y x [] h d i = (h, i)
    under y x (z ∷ zs) h d i = elim (Bool-cases (fl.lt x.ml_score z.ml_score)) [
      | inl e ↦ ground (arith, e)
      | inr e ↦ ground (arith, e)
    ]

    tail-Descends :
        (y : FlowDetailRecord fl db) (ys : List (FlowDetailRecord fl db))
        → Descends (y ∷ ys)
        → Descends ys
    tail-Descends y [] d = tt
    tail-Descends y (z ∷ zs) d = d.1

    insert-Descends :
        (x : FlowDetailRecord fl db) (ys : List (FlowDetailRecord fl db))
        → Descends ys
        → Descends (insert_by_score fl db x ys)
    unfolding insert_by_score
    insert-Descends x [] d = tt
    insert-Descends x (y ∷ ys) d = elim (Bool-cases (fl.lt x.ml_score y.ml_score)) [
      | inl e ↦ rw e (
          under y x ys (asym x.ml_score y.ml_score e) d
            (insert-Descends x ys (tail-Descends y ys d)))
      | inr e ↦ rw e (e, d)
    ]

    sort-Descends : (xs : List (FlowDetailRecord fl db)) → Descends (sort_by_score fl db xs)
    unfolding sort_by_score
    sort-Descends [] = tt
    sort-Descends (x ∷ xs) = insert-Descends x (sort_by_score fl db xs) (sort-Descends xs)

  count_anomalous-le : (xs : List (FlowDetailRecord fl db)) → count_anomalous fl db xs ≤ length xs
  unfolding count_anomalous
  count_anomalous-le [] = omega arith
  count_anomalous-le (x ∷ xs) = ground (arith, count_anomalous-le xs)

  protocols-le :
      (rs : List FlowRecord) → count_protocol fl db 6 rs + count_protocol fl db 17 rs ≤ length rs
  unfolding count_protocol
  protocols-le [] = omega arith
  protocols-le (r ∷ rs) = ground (arith, protocols-le rs)

  -- The flows of a protocol, and those whose score is above one half.
  abbrev pub with_protocol : ℕ → List FlowRecord → List FlowRecord
  with_protocol protocol = retain (λ r. r.key.protocol == protocol)

  abbrev pub above_half : List (FlowDetailRecord fl db) → List (FlowDetailRecord fl db)
  above_half = retain (λ f. fl.lt (fl.lit 5 10) f.ml_score)

  count_protocol-length :
      (protocol : ℕ) (rs : List FlowRecord)
      → count_protocol fl db protocol rs ≡ length (with_protocol protocol rs)
  unfolding count_protocol
  count_protocol-length protocol [] = refl
  count_protocol-length protocol (r ∷ rs) = ground (arith, count_protocol-length protocol rs)

  count_anomalous-length :
      (xs : List (FlowDetailRecord fl db)) → count_anomalous fl db xs ≡ length (above_half xs)
  unfolding count_anomalous
  count_anomalous-length [] = refl
  count_anomalous-length (x ∷ xs) = ground (arith, count_anomalous-length xs)

  length-map : {A B : Type 0} (f : A → B) (xs : List A) → length (map f xs) ≡ length xs
  length-map f [] = refl
  length-map f (x ∷ xs) = omega (arith, length-map f xs)

  -- What the response says of the flow table at a time.
  pub record Shows (now : ℕ) (t : FlowTracker) (r : FlowsResponse fl db) : Type 0 where
    pub flows : Perm r.flows (map (detail_of fl db now) (all_flows t))
    pub descends : Descends r.flows
    pub total : r.total_flows ≡ active_count t
    pub tcp : r.tcp_flows ≡ length (with_protocol 6 (all_flows t))
    pub udp : r.udp_flows ≡ length (with_protocol 17 (all_flows t))
    pub above_half : r.anomalous ≡ length (above_half r.flows)
    pub protocols : r.tcp_flows + r.udp_flows ≤ r.total_flows
    pub anomalous : r.anomalous ≤ r.total_flows

  -- The response lists every flow of the table once, none scoring less than the one after it; its
  -- total is the number of active flows, the TCP and UDP flows are those of protocol 6 and 17 in the
  -- table, disjoint parts of it, and the anomalous ones those listed with a score above one half.
  -- The comparison of floats has to be asymmetric.
  pub flow_details-Shows :
      IsAsymmetric → (now : ℕ) (t : FlowTracker) → Shows now t (flow_details fl db now t)
  unfolding flow_details active_count all_flows
  flow_details-Shows asym now t =
      let records = all_flows t in
      let details = map (detail_of fl db now) records in
      let size = length-sort details in
      let same = length-map (detail_of fl db now) records in
      record {
        flows = sort-Perm details;
        descends = sort-Descends asym details;
        total = size ∙ (same ∙ length-map (λ kr. kr.1) t.flows);
        tcp = count_protocol-length 6 records;
        udp = count_protocol-length 17 records;
        above_half = count_anomalous-length (sort_by_score fl db details);
        protocols = omega (arith, size, same, protocols-le records);
        anomalous = count_anomalous-le (sort_by_score fl db details);
      }
