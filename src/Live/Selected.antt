-- ===== src/Live/Selected.antt =====
-- Which interface the capture task of src/main.rs listens on, while the API switches it.
use ge_sensor.Prelude.{ℕ, suc, ◌<◌, ◌≡◌, refl, ◌⊎◌, inl, inr, Bool, true, arith, String}
use ge_sensor.Api.{AppState}
use ge_sensor.Live.{
  Position, outer, got, opening, checking, comparing, waiting, Move, sleep, read_interface,
  clear_flag, open_failed, opened, pause, carry_on, restart, await, no_packet, got_packet, toggle,
  write_interface, set_flag, World, Step, task, call, started,
}

-- The task has read the interface and not yet cleared the flag.
abbrev pub InWindow : Position → Type 0
InWindow (got i) = Unit
InWindow outer = ⊥
InWindow (opening i) = ⊥
InWindow (checking i) = ⊥
InWindow (comparing i) = ⊥
InWindow (waiting i) = ⊥

-- No interface is written in that window.
abbrev pub IsCalm : {w v : World} → Step w v → Type 0
IsCalm {w} (call (write_interface i)) = ¬ InWindow w.position
IsCalm (call (toggle enabled)) = Unit
IsCalm (call set_flag) = Unit
IsCalm (task m) = Unit

pub data CalmReach (w : World) : World → Type 0 where
  here : CalmReach w w
  later : {u v : World} → CalmReach w u → (s : Step u v) → IsCalm s → CalmReach w v

-- The interface is the selected one, or a switch to another is on its way.
abbrev pub Current : String → AppState → ℕ → Type 0
Current i a pending = (i ≡ a.capture_interface) ⊎ ((a.restart_capture ≡ true) ⊎ (0 < pending))

abbrev pub Fresh : Position → AppState → ℕ → Type 0
Fresh outer a n = Unit
Fresh (got i) a n = i ≡ a.capture_interface
Fresh (opening i) a n = Current i a n
Fresh (checking i) a n = Current i a n
Fresh (comparing i) a n = Current i a n
Fresh (waiting i) a n = Current i a n

Move-Fresh : {a b : AppState} {p q : Position} (n : ℕ) → Move a p b q → Fresh p a n → Fresh q b n
Move-Fresh n (sleep e) f = f
Move-Fresh n (read_interface e) f = refl
Move-Fresh n clear_flag f = inl f
Move-Fresh n open_failed f = tt
Move-Fresh n opened f = f
Move-Fresh n (pause e) f = tt
Move-Fresh n (carry_on e) f = f
Move-Fresh n (restart e) f = tt
Move-Fresh n (await e) f = f
Move-Fresh n no_packet f = f
Move-Fresh n (got_packet w frame e) f = f

toggled :
    (a : AppState) (n : ℕ) (p : Position) (e : Bool)
    → Fresh p a n
    → Fresh p (record a { capture_enabled = e }) n
toggled a n outer e f = f
toggled a n (got i) e f = f
toggled a n (opening i) e f = f
toggled a n (checking i) e f = f
toggled a n (comparing i) e f = f
toggled a n (waiting i) e f = f

flagged :
    (a : AppState) (n : ℕ) (p : Position)
    → Fresh p a (suc n)
    → Fresh p (record a { restart_capture = true }) n
flagged a n outer f = f
flagged a n (got i) f = f
flagged a n (opening i) f = inr (inl refl)
flagged a n (checking i) f = inr (inl refl)
flagged a n (comparing i) f = inr (inl refl)
flagged a n (waiting i) f = inr (inl refl)

switched :
    (a : AppState) (n : ℕ) (p : Position) (i : String)
    → ¬ InWindow p
    → Fresh p (record a { capture_interface = i }) (suc n)
switched a n outer i c = tt
switched a n (got j) i c = absurd (c tt)
switched a n (opening j) i c = inr (inr (omega arith))
switched a n (checking j) i c = inr (inr (omega arith))
switched a n (comparing j) i c = inr (inr (omega arith))
switched a n (waiting j) i c = inr (inr (omega arith))

Step-Fresh :
    {w v : World} (s : Step w v)
    → IsCalm s
    → Fresh w.position w.app w.pending
    → Fresh v.position v.app v.pending
Step-Fresh {w} (task m) c f = Move-Fresh w.pending m f
Step-Fresh {w} (call (toggle e)) c f = toggled w.app w.pending w.position e f
Step-Fresh {w} (call (write_interface i)) c f = switched w.app w.pending w.position i c
Step-Fresh {w} {v} (call set_flag) c f = flagged w.app v.pending w.position f

-- However the task and any number of API calls interleave, as long as no call writes the interface
-- between the task's reading it and clearing the restart flag: the interface that the task opens or
-- captures on is the selected one, or the flag is set, or a call is about to set it.
pub CalmReach-Fresh :
    (a : AppState) {w : World} → CalmReach (started a) w → Fresh w.position w.app w.pending
CalmReach-Fresh a here = tt
CalmReach-Fresh a (later r s c) = Step-Fresh s c (CalmReach-Fresh a r)
