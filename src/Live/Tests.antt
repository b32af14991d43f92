-- ===== src/Live/Tests.antt =====
-- The capture task from the start of the sensor.
use ge_sensor.Prelude.{◌≡◌, refl, true, false, ℕ, arith}
use ge_sensor.Api.{AppState}
use ge_sensor.Api.Sample.{state}
use ge_sensor.Live.{
  World, outer, got, checking, waiting, Position, Reach, task, call, sleep, read_interface,
  clear_flag, opened, pause, carry_on, restart, no_packet, write_interface, set_flag, started,
}
use ge_sensor.Live.Selected.{here, later, Fresh, CalmReach-Fresh}
use ge_sensor.Live.Progress.{Moves, stop, next, OnSelected, Moves-outer, Moves-OnSelected_switched}
use ge_sensor.Live.Race.{Stale, Captures, Reach-Stale}

-- The interface is switched while the task opens the first.
CalmReach-Fresh_example :
    Fresh (checking "eth0") (record state { capture_interface = "wlan0"; restart_capture = true }) 0
CalmReach-Fresh_example = CalmReach-Fresh state (
    later
      (later
        (later (later (later here (task (read_interface refl)) tt) (task clear_flag) tt)
          (call (write_interface "wlan0")) (λ c. c))
        (call set_flag) tt)
      (task opened) tt)

abbrev off : AppState
off = record state { capture_enabled = false }

paused : Moves 4 off (waiting "eth0") off outer
paused = next no_packet (next (pause refl) (next (sleep refl) (next (sleep refl) stop)))

Moves-outer_example : outer ≡ outer
Moves-outer_example = Moves-outer 4 paused refl (omega arith)

abbrev flagged : AppState
flagged = record state { capture_interface = "wlan0"; restart_capture = true }

switched : Moves 4 flagged (waiting "eth0") flagged (got "wlan0")
switched =
    next no_packet (next (carry_on refl) (next (restart refl) (next (read_interface refl) stop)))

Moves-OnSelected_switched_example : OnSelected (got "wlan0") flagged
Moves-OnSelected_switched_example = Moves-OnSelected_switched 4 switched tt refl (omega arith)

Reach-Stale_example :
    (w : World) × Reach (started state) w
    × Stale "eth0" "wlan0" w
    × ((n : ℕ) (b : AppState) (q : Position) → Moves n w.app w.position b q → Captures "eth0" q)
Reach-Stale_example = Reach-Stale state "wlan0"
