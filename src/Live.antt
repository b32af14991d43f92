-- ===== src/Live.antt =====
-- The capture task of src/main.rs beside the API calls that steer it (src/utils/dashboard.rs), as
-- a step relation: the task and the calls touch the shared flags one access at a time, in any order.
-- What the capture back end answers is left open: it may open or fail, and give a packet or none.
pub mod Selected
pub mod Progress
pub mod Race
mod Tests
use ge_sensor.Prelude.{ℕ, zero, suc, ◌≡◌, Bool, true, false, List, done, String}
use ge_sensor.Capture.{Sensor, Surroundings, process_packet}
use ge_sensor.Api.{AppState}

-- Where the capture task stands, with the interface that it has read.
pub data Position : Type 0 where
  outer : Position  -- head of the outer loop
  got : (interface : String) → Position  -- before `cap_restart.store(false)`
  opening : (interface : String) → Position  -- before `create_provider`
  checking : (interface : String) → Position  -- head of the inner loop
  comparing : (interface : String) → Position  -- before `cap_restart.load`
  waiting : (interface : String) → Position  -- in `next_packet`

-- One step of the task. An error of the back end and a timeout both give no packet.
pub data Move (a : AppState) : Position → AppState → Position → Type 0 where
  sleep : a.capture_enabled ≡ false → Move a outer a outer
  read_interface : a.capture_enabled ≡ true → Move a outer a (got a.capture_interface)
  clear_flag : {i : String} → Move a (got i) (record a { restart_capture = false }) (opening i)
  open_failed : {i : String} → Move a (opening i) a outer
  opened : {i : String} → Move a (opening i) a (checking i)
  pause : {i : String} → a.capture_enabled ≡ false → Move a (checking i) a outer
  carry_on : {i : String} → a.capture_enabled ≡ true → Move a (checking i) a (comparing i)
  restart : {i : String} → a.restart_capture ≡ true → Move a (comparing i) a outer
  await : {i : String} → a.restart_capture ≡ false → Move a (comparing i) a (waiting i)
  no_packet : {i : String} → Move a (waiting i) a (checking i)
  got_packet :
      {i : String} {s : Sensor} (w : Surroundings) (frame : List ℕ)
      → process_packet w frame a.sensor ≡ done s
      → Move a (waiting i) (record a { sensor = s }) (checking i)

-- One step of an API call. `pending` counts the calls of `set_interface` that have written the
-- interface and not yet set the flag.
pub data Call (a : AppState) : ℕ → AppState → ℕ → Type 0 where
  toggle :
      {pending : ℕ} (enabled : Bool)
      → Call a pending (record a { capture_enabled = enabled }) pending
  write_interface :
      {pending : ℕ} (interface : String)
      → Call a pending (record a { capture_interface = interface }) (suc pending)
  set_flag : {pending : ℕ} → Call a (suc pending) (record a { restart_capture = true }) pending

pub record World : Type 0 where
  pub app : AppState
  pub position : Position
  pub pending : ℕ

pub data Step (w : World) : World → Type 0 where
  task :
      {a : AppState} {p : Position}
      → Move w.app w.position a p
      → Step w (record { app = a; position = p; pending = w.pending })
  call :
      {a : AppState} {n : ℕ}
      → Call w.app w.pending a n
      → Step w (record { app = a; position = w.position; pending = n })

pub data Reach (w : World) : World → Type 0 where
  here : Reach w w
  later : {u v : World} → Reach w u → Step u v → Reach w v

-- The task as `main` starts it.
abbrev pub started : AppState → World
started a = record {
  app = record a { capture_enabled = true; restart_capture = false };
  position = outer;
  pending = 0;
}
