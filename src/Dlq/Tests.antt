-- ===== src/Dlq/Tests.antt =====
-- The cases of the source's tests of the queue, and the theorems at concrete queues.
use ge_sensor.Prelude.{◌+◌, ◌/◌, ◌≡◌, ◌≤◌, refl, max, true, false, some, [], ◌∷◌, arith}
use ge_sensor.Dlq.{
  DlqConfig, DeadLetterQueue, Event, written, cut, threshold, new, calculate_dir_size, size_bytes,
  is_circuit_open, spool, spool_all,
}
use ge_sensor.Dlq.Breaker.{Full, spool_all_latched}
use ge_sensor.Dlq.Storage.{Spooled, spool-Spooled, size_bytes-spool_all}

-- 100 bytes and a threshold of one half.
abbrev config : DlqConfig
config = record { max_bytes = 100; retention_days = 7; scale = λ n. n / 2 }

abbrev empty : DeadLetterQueue
empty = record {
  config = config;
  stats = record { current_bytes = 0; total_spooled = 0; total_replayed = 0; circuit_open = false };
  sequence = 0;
  files = [];
}

new-empty : new config true [] ≡ some empty
unfolding new calculate_dir_size
new-empty = refl

abbrev full : DeadLetterQueue
full = record empty { config = record config { max_bytes = 0 } }

new-full : new (record config { max_bytes = 0 }) true [] ≡ some full
unfolding new calculate_dir_size
new-full = refl

abbrev event : Event
event = record { date = "20260324000000"; outcome = written; payload = 1 ∷ 2 ∷ 3 ∷ [] }

opened : is_circuit_open (spool_all (event ∷ []) full) ≡ true
unfolding is_circuit_open spool_all spool
opened = refl

spool_all_latched_example :
    Full
      (spool_all (event ∷ []) full)
      (spool_all (event ∷ event ∷ []) (spool_all (event ∷ []) full))
    × (is_circuit_open (spool_all (event ∷ event ∷ []) (spool_all (event ∷ []) full)) ≡ true)
spool_all_latched_example =
    spool_all_latched (record config { max_bytes = 0 }) true [] full (event ∷ [])
      (event ∷ event ∷ []) new-full opened

empty_room : size_bytes empty ≤ 49
unfolding size_bytes
empty_room = omega arith

spool-Spooled_example :
    Spooled "20260324000000"
      (cut 1)
      (1 ∷ 2 ∷ [])
      empty
      (spool "20260324000000" (cut 1) (1 ∷ 2 ∷ []) empty)
spool-Spooled_example =
    spool-Spooled "20260324000000" (cut 1) (1 ∷ 2 ∷ []) empty (omega (arith, empty_room))

size_bytes-spool_all_example :
    size_bytes (spool_all (event ∷ event ∷ []) empty) ≤ max (size_bytes empty) (threshold empty + 3)
size_bytes-spool_all_example =
    size_bytes-spool_all 3 (event ∷ event ∷ []) empty (omega arith, (omega arith, tt))
