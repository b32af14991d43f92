-- ===== src/Live/Race.antt =====
-- The window between the two accesses of the capture task of src/main.rs: a switch of the interface
-- in it is lost.
use ge_sensor.Prelude.{ℕ, zero, suc, ◌≡◌, refl, true, false, String}
use ge_sensor.Api.{AppState}
use ge_sensor.Live.{
  Position, outer, got, opening, checking, comparing, waiting, Move, read_interface, clear_flag,
  opened, carry_on, await, no_packet, write_interface, set_flag, World, task, call, Reach, here,
  later, started, sleep, open_failed, pause, restart, got_packet,
}
use ge_sensor.Live.Progress.{Moves, stop, next}

-- The task waits for packets on `old`, with no switch on its way, though the API has selected `new`.
pub record Stale (old new : String) (w : World) : Type 0 where
  pub position : w.position ≡ waiting old
  pub enabled : w.app.capture_enabled ≡ true
  pub selected : w.app.capture_interface ≡ new
  pub unflagged : w.app.restart_capture ≡ false
  pub idle : w.pending ≡ 0

abbrev lost : AppState → String → World
lost a new = record {
  app = record a { capture_interface = new; capture_enabled = true; restart_capture = false };
  position = waiting a.capture_interface;
  pending = 0;
}

-- The task is in its inner loop on that interface.
abbrev pub Captures : String → Position → Type 0
Captures old outer = ⊥
Captures old (got i) = ⊥
Captures old (opening i) = ⊥
Captures old (checking i) = i ≡ old
Captures old (comparing i) = i ≡ old
Captures old (waiting i) = i ≡ old

Move-Captures :
    {a b : AppState} {p q : Position} (old : String)
    → Move a p b q
    → a.capture_enabled ≡ true
    → a.restart_capture ≡ false
    → Captures old p
    → Captures old q × (b.capture_enabled ≡ true) × (b.restart_capture ≡ false)
Move-Captures old (sleep e) on r c = absurd c
Move-Captures old (read_interface e) on r c = absurd c
Move-Captures old clear_flag on r c = absurd c
Move-Captures old open_failed on r c = absurd c
Move-Captures old opened on r c = absurd c
Move-Captures old (pause e) on r c = absurd (cc)
Move-Captures old (carry_on e) on r c = (c, on, r)
Move-Captures old (restart e) on r c = absurd (cc)
Move-Captures old (await e) on r c = (c, on, r)
Move-Captures old no_packet on r c = (c, on, r)
Move-Captures old (got_packet w frame e) on r c = (c, on, r)

Moves-Captures :
    {a b : AppState} {p q : Position} (old : String) (n : ℕ)
    → Moves n a p b q
    → a.capture_enabled ≡ true
    → a.restart_capture ≡ false
    → Captures old p
    → Captures old q
Moves-Captures old zero stop on r c = c
Moves-Captures old (suc n) (next m ms) on r c =
    let (c', on', r') = Move-Captures old m on r c in Moves-Captures old n ms on' r' c'

-- From the start of the task on any interface, the state can be reached in which the API has switched
-- to any other, no switch is on its way, and the task captures on the first: it read that, the call
-- then wrote the other and set the flag, and the task cleared the flag. There it stays: however many
-- steps the task takes from there without a further call, it captures on the first interface.
pub Reach-Stale :
    (a : AppState) (new : String)
    → (w : World) × Reach (started a) w
      × Stale a.capture_interface new w
      × ((n : ℕ) (b : AppState) (q : Position)
          → Moves n w.app w.position b q
          → Captures a.capture_interface q)
Reach-Stale a new = (
  lost a new,
  later
      (later
        (later
          (later
            (later (later (later here (task (read_interface refl))) (call (write_interface new)))
              (call set_flag))
            (task clear_flag))
          (task opened))
        (task (carry_on refl)))
      (task (await refl)),
  record { position = refl; enabled = refl; selected = refl; unflagged = refl; idle = refl },
  (λ n b q m. Moves-Captures a.capture_interface n m refl refl refl),
)
