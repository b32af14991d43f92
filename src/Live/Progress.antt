-- ===== src/Live/Progress.antt =====
-- That the capture task of src/main.rs gets on: it always has a next step, pauses soon after it is
-- switched off, and leaves an interface soon after a switch.
use ge_sensor.Prelude.{
  ℕ, zero, suc, ◌-◌, ◌≤◌, ◌<◌, ◌≡◌, refl, ◌⊎◌, inl, inr, Bool, true, false, List, arith, String,
}
use ge_sensor.Capture.{Sensor, Surroundings}
use ge_sensor.Capture.Safety.{IsSensor, process_packet-Returns}
use ge_sensor.Api.{AppState}
use ge_sensor.Live.{
  Position, outer, got, opening, checking, comparing, waiting, Move, sleep, read_interface,
  clear_flag, open_failed, opened, pause, carry_on, restart, await, no_packet, got_packet,
}

-- Steps of the task alone.
pub data Moves : ℕ → AppState → Position → AppState → Position → Type 0 where
  stop : {a : AppState} {p : Position} → Moves zero a p a p
  next :
      {n : ℕ} {a b c : AppState} {p q r : Position}
      → Move a p b q
      → Moves n b q c r
      → Moves (suc n) a p c r

-- How many steps the task may still take before it sleeps, once it is switched off.
abbrev to_pause : Position → ℕ
to_pause outer = 0
to_pause (checking i) = 1
to_pause (opening i) = 2
to_pause (waiting i) = 2
to_pause (got i) = 3
to_pause (comparing i) = 3

Move-to_pause :
    {a b : AppState} {p q : Position}
    → Move a p b q
    → a.capture_enabled ≡ false
    → (to_pause q ≤ to_pause p - 1) × (b.capture_enabled ≡ false)
Move-to_pause (sleep e) off = (omega arith, off)
Move-to_pause (read_interface e) off = absurd (cc)
Move-to_pause clear_flag off = (omega arith, off)
Move-to_pause open_failed off = (omega arith, off)
Move-to_pause opened off = (omega arith, off)
Move-to_pause (pause e) off = (omega arith, off)
Move-to_pause (carry_on e) off = absurd (cc)
Move-to_pause (restart e) off = (omega arith, off)
Move-to_pause (await e) off = (omega arith, off)
Move-to_pause no_packet off = (omega arith, off)
Move-to_pause (got_packet w frame e) off = (omega arith, off)

at_outer : (p : Position) → to_pause p ≤ 0 → p ≡ outer
at_outer outer h = refl
at_outer (got i) h = absurd (omega arith)
at_outer (opening i) h = absurd (omega arith)
at_outer (checking i) h = absurd (omega arith)
at_outer (comparing i) h = absurd (omega arith)
at_outer (waiting i) h = absurd (omega arith)

-- Once capture is switched off and no call interferes, the task sleeps at the head of its outer
-- loop from its third step on, whatever the back end answers.
pub Moves-outer :
    {a b : AppState} {p q : Position} (n : ℕ)
    → Moves n a p b q
    → a.capture_enabled ≡ false
    → 3 ≤ n
    → q ≡ outer
Moves-outer {p} {q} n m off h = at_outer q (omega (arith, left n m off, start p))
  where
    start : (p : Position) → to_pause p ≤ 3
    start p = ground arith

    left :
        {a b : AppState} {p q : Position} (n : ℕ)
        → Moves n a p b q
        → a.capture_enabled ≡ false
        → to_pause q ≤ to_pause p - n
    left zero stop off = omega arith
    left (suc n) (next m ms) off =
        let (less, still) = Move-to_pause m off in omega (arith, less, left n ms still)

-- The interface that the task has read.
abbrev pub OnSelected : Position → AppState → Type 0
OnSelected outer a = Unit
OnSelected (got i) a = i ≡ a.capture_interface
OnSelected (opening i) a = i ≡ a.capture_interface
OnSelected (checking i) a = i ≡ a.capture_interface
OnSelected (comparing i) a = i ≡ a.capture_interface
OnSelected (waiting i) a = i ≡ a.capture_interface

Move-OnSelected : {a b : AppState} {p q : Position} → Move a p b q → OnSelected p a → OnSelected q b
Move-OnSelected (sleep e) o = tt
Move-OnSelected (read_interface e) o = refl
Move-OnSelected clear_flag o = o
Move-OnSelected open_failed o = tt
Move-OnSelected opened o = o
Move-OnSelected (pause e) o = tt
Move-OnSelected (carry_on e) o = o
Move-OnSelected (restart e) o = tt
Move-OnSelected (await e) o = o
Move-OnSelected no_packet o = o
Move-OnSelected (got_packet w frame e) o = o

Moves-OnSelected :
    {a b : AppState} {p q : Position} (n : ℕ) → Moves n a p b q → OnSelected p a → OnSelected q b
Moves-OnSelected zero stop o = o
Moves-OnSelected (suc n) (next m ms) o = Moves-OnSelected n ms (Move-OnSelected m o)

-- How many steps the task may still take on the interface that it captures on.
abbrev to_leave : Position → ℕ
to_leave (comparing i) = 1
to_leave (checking i) = 2
to_leave (waiting i) = 3
to_leave outer = 0
to_leave (got i) = 0
to_leave (opening i) = 0

abbrev pub IsCapturing : Position → Type 0
IsCapturing outer = ⊥
IsCapturing (got i) = ⊥
IsCapturing (opening i) = ⊥
IsCapturing (checking i) = Unit
IsCapturing (comparing i) = Unit
IsCapturing (waiting i) = Unit

-- A step from the inner loop with the flag set leads nearer to leaving it, or out.
Move-to_leave :
    {a b : AppState} {p q : Position}
    → Move a p b q
    → IsCapturing p
    → a.restart_capture ≡ true
    → (q ≡ outer) ⊎ (IsCapturing q × (to_leave q < to_leave p) × (b.restart_capture ≡ true))
Move-to_leave (sleep e) c r = absurd c
Move-to_leave (read_interface e) c r = absurd c
Move-to_leave clear_flag c r = absurd c
Move-to_leave open_failed c r = absurd c
Move-to_leave opened c r = absurd c
Move-to_leave (pause e) c r = inl refl
Move-to_leave (carry_on e) c r = inr (tt, omega arith, r)
Move-to_leave (restart e) c r = inl refl
Move-to_leave (await e) c r = absurd (cc)
Move-to_leave no_packet c r = inr (tt, omega arith, r)
Move-to_leave (got_packet w frame e) c r = inr (tt, omega arith, r)

not_left : (p : Position) → IsCapturing p → to_leave p ≤ 0 → ⊥
not_left outer c h = c
not_left (got i) c h = c
not_left (opening i) c h = c
not_left (checking i) c h = omega arith
not_left (comparing i) c h = omega arith
not_left (waiting i) c h = omega arith

leaves :
    {a b : AppState} {p q : Position} (n : ℕ)
    → Moves n a p b q
    → IsCapturing p
    → a.restart_capture ≡ true
    → to_leave p ≤ n
    → OnSelected q b
leaves {p} zero stop c r h = absurd (not_left p c h)
leaves (suc n) (next m ms) c r h = elim (Move-to_leave m c r) [
  | inl out ↦ Moves-OnSelected n ms (rw out tt)
  | inr (c', less, r') ↦ leaves n ms c' r' (omega (arith, less))
]

-- Once the restart flag is set while the task captures, and no call interferes, the task is off the
-- old interface from its third step on, whatever the back end answers: it is at the head of its
-- outer loop, or on its way to the selected interface, or captures on that.
pub Moves-OnSelected_switched :
    {a b : AppState} {p q : Position} (n : ℕ)
    → Moves n a p b q
    → IsCapturing p
    → a.restart_capture ≡ true
    → 3 ≤ n
    → OnSelected q b
Moves-OnSelected_switched {p} n m c r h = leaves n m c r (omega (arith, bound p))
  where
    bound : (p : Position) → to_leave p ≤ 3
    bound p = ground arith

-- The task has a next step.
abbrev pub CanMove : AppState → Position → Type 0
CanMove a p = (b : AppState) × (q : Position) × Move a p b q × IsSensor b.sensor

by_flag :
    {a : AppState} {p : Position} (b : Bool)
    → IsSensor a.sensor
    → (b ≡ true → (q : Position) × Move a p a q)
    → (b ≡ false → (q : Position) × Move a p a q)
    → CanMove a p
by_flag {a} true v f g = let (q, m) = f refl in (a, q, m, v)
by_flag {a} false v f g = let (q, m) = g refl in (a, q, m, v)

can_move : (a : AppState) (p : Position) → IsSensor a.sensor → CanMove a p
can_move a outer v = by_flag a.capture_enabled v (λ e. (_, read_interface e)) (λ e. (_, sleep e))
can_move a (got i) v = (_, _, clear_flag, v)
can_move a (opening i) v = (_, _, opened, v)
can_move a (checking i) v = by_flag a.capture_enabled v (λ e. (_, carry_on e)) (λ e. (_, pause e))
can_move a (comparing i) v = by_flag a.restart_capture v (λ e. (_, restart e)) (λ e. (_, await e))
can_move a (waiting i) v = (_, _, no_packet, v)

-- From a well-formed sensor the task always has a next step, to a well-formed one; and when it waits
-- for packets, it has one for every frame that may come, back to the head of its inner loop.
pub Move-CanMove :
    (a : AppState) (p : Position)
    → IsSensor a.sensor
    → CanMove a p
      × ((i : String) (w : Surroundings) (frame : List ℕ)
          → (s : Sensor) × Move a (waiting i) (record a { sensor = s }) (checking i) × IsSensor s)
Move-CanMove a p v = (
  can_move a p v,
  (λ i w frame.
      let (s, eq, v') = process_packet-Returns w frame a.sensor v in
      (s, got_packet w frame eq, v')),
)
