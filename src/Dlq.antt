-- ===== src/Dlq.antt =====
-- The dead-letter queue: src/output/dlq.rs. Each call has the date that it would format and how the
-- write to the disk goes as arguments; the files of the directory are part of the state. The
-- product of `max_bytes` with the threshold, a 64-bit float, is the field `scale` of the
-- configuration. Atomic counters are plain ones: the calls come one after the other.
pub mod Breaker
pub mod Storage
mod Tests
use ge_sensor.Prelude.{
  ℕ, zero, suc, ◌+◌, ◌/◌, ◌%◌, ◌^◌, ◌&&◌, Bool, true, false, not, Option, none, some, List, [], ◌∷◌,
  ◌++◌, ltb, leb, ◌==◌, if◌then◌else◌, length, retain, take, add_u64, str_eq, String,
}

pub record DlqConfig : Type 0 where
  pub max_bytes : ℕ
  pub retention_days : ℕ
  pub scale : ℕ → ℕ

pub record DlqStats : Type 0 where
  pub current_bytes : ℕ
  pub total_spooled : ℕ
  pub total_replayed : ℕ
  pub circuit_open : Bool

-- A file name is the date and the sequence number.
abbrev pub FileName : Type 0
FileName = String × ℕ

abbrev pub same_name : FileName → FileName → Bool
same_name a b = str_eq a.0 b.0 && (a.1 == b.1)

pub record DeadLetterQueue : Type 0 where
  pub config : DlqConfig
  pub stats : DlqStats
  pub sequence : ℕ
  pub files : List (FileName × List ℕ)

-- The sizes of the files, summed in a u64.
unfoldable pub calculate_dir_size : List (FileName × List ℕ) → ℕ
calculate_dir_size [] = 0
calculate_dir_size (file ∷ files) = add_u64 (length file.1) (calculate_dir_size files)

-- `none` is the error when the directory cannot be made.
unfoldable pub new : DlqConfig → Bool → List (FileName × List ℕ) → Option DeadLetterQueue
new config creatable files =
    if creatable
    then some record {
      config = config;
      stats = record {
        current_bytes = calculate_dir_size files;
        total_spooled = 0;
        total_replayed = 0;
        circuit_open = false;
      };
      sequence = 0;
      files = files;
    }
    else none

abbrev pub threshold : DeadLetterQueue → ℕ
threshold q = q.config.scale q.config.max_bytes

unfoldable pub size_bytes : DeadLetterQueue → ℕ
size_bytes q = q.stats.current_bytes

unfoldable pub is_circuit_open : DeadLetterQueue → Bool
is_circuit_open q = q.stats.circuit_open

abbrev pub set_circuit : Bool → DeadLetterQueue → DeadLetterQueue
set_circuit b q = record q { stats = record q.stats { circuit_open = b } }

-- `fs::write`, which replaces a file of that name.
unfoldable pub write_file : FileName → List ℕ → List (FileName × List ℕ) → List (FileName × List ℕ)
write_file name payload files =
    retain (λ file. not (same_name file.0 name)) files ++ ((name, payload) ∷ [])

-- The reset of the circuit breaker.
unfoldable pub reset_circuit : DeadLetterQueue → DeadLetterQueue
reset_circuit q =
    if q.stats.circuit_open && ltb q.stats.current_bytes (threshold q / 2)
    then set_circuit false q
    else q

-- How `fs::write` goes: the whole payload is written, the file cannot be opened, or an error comes
-- after the first so many bytes, when the file is there already.
pub data Write : Type 0 where
  written : Write
  refused : Write
  cut : (bytes : ℕ) → Write

unfoldable pub write_cut :
    Write → FileName → List ℕ → List (FileName × List ℕ) → List (FileName × List ℕ)
unfolding write_file
write_cut written name payload files = write_file name payload files
write_cut refused name payload files = files
write_cut (cut bytes) name payload files = write_file name (take bytes payload) files

abbrev pub is_written : Write → Bool
is_written written = true
is_written refused = false
is_written (cut bytes) = false

-- What follows the checks: the sequence number is used up even where the write fails. The result is
-- whether the call returned `Ok`.
unfoldable pub store : String → Write → List ℕ → DeadLetterQueue → Bool × DeadLetterQueue
unfolding write_cut
store date outcome payload q =
    let next = record q {
      sequence = add_u64 q.sequence 1;
      files = write_cut outcome (date, q.sequence) payload q.files;
    } in
    if is_written outcome
    then (
      true,
      record next {
        stats = record q.stats {
          current_bytes = add_u64 q.stats.current_bytes (length payload);
          total_spooled = add_u64 q.stats.total_spooled 1;
        };
      },
    )
    else (false, next)

unfoldable pub spool : String → Write → List ℕ → DeadLetterQueue → Bool × DeadLetterQueue
spool date outcome payload q =
    if leb (threshold q) q.stats.current_bytes
    then (true, (if not q.stats.circuit_open then set_circuit true q else q))
    else store date outcome payload (reset_circuit q)

-- A call with its surroundings, and calls one after the other.
pub record Event : Type 0 where
  pub date : String
  pub outcome : Write
  pub payload : List ℕ

unfoldable pub spool_all : List Event → DeadLetterQueue → DeadLetterQueue
spool_all [] q = q
spool_all (e ∷ events) q = spool_all events (spool e.date e.outcome e.payload q).1
