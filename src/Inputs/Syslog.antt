-- ===== src/Inputs/Syslog.antt =====
-- Syslog messages: `parse_syslog` of src/inputs/syslog.rs. Texts are UTF-8 bytes, and the clock
-- reading is an argument.
pub mod Headers
use ge_sensor.Prelude.{
  ℕ, ◌/◌, ◌^◌, bit_and, true, false, Option, none, some, List, [], ◌∷◌, get_or, drop, is_empty,
  if◌then◌else◌, as_u8, String,
}
use ge_sensor.Text.{trim, starts_with, split_once, splitn, space, parse_u16}

pub record SyslogEvent : Type 0 where
  pub priority : ℕ
  pub facility : ℕ
  pub severity : ℕ
  pub hostname : List ℕ
  pub app_name : List ℕ
  pub message : List ℕ
  pub timestamp : String

-- "<" and ">".
abbrev pub less : ℕ
less = 60

abbrev pub greater : ℕ
greater = 62

-- A message without a priority.
unfoldable pub raw_event : List ℕ → String → SyslogEvent
raw_event raw now = record {
  priority = 13;
  facility = 1;
  severity = 5;
  hostname = [];
  app_name = [];
  message = raw;
  timestamp = now;
}

unfoldable pub header_event : ℕ → List ℕ → String → SyslogEvent
header_event priority rest now =
    let parts = splitn 4 space rest in
    record {
      priority = priority;
      facility = as_u8 (priority / 2 ^ 3);
      severity = as_u8 (bit_and priority 0x07);
      hostname = get_or parts 1 [];
      app_name = get_or parts 2 [];
      message = get_or parts 3 rest;
      timestamp = now;
    }

-- The text before the first ">", of which `raw[1..pri_end]` drops the "<", and the one after it.
unfoldable pub prioritised : List ℕ → String → Option SyslogEvent
prioritised raw now = elim (split_once greater raw) [
  | none ↦ none
  | some (before, rest) ↦ elim (parse_u16 (drop 1 before)) [
    | none ↦ none
    | some priority ↦ some (header_event priority rest now)
  ]
]

unfoldable pub parse_trimmed : List ℕ → String → Option SyslogEvent
parse_trimmed raw now =
    if is_empty raw
    then none
    else if starts_with (less ∷ []) raw
    then prioritised raw now
    else some (raw_event raw now)

unfoldable pub parse_syslog : List ℕ → String → Option SyslogEvent
parse_syslog raw now = parse_trimmed (trim raw) now
