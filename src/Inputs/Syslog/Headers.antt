-- ===== src/Inputs/Syslog/Headers.antt =====
-- What `parse_syslog` makes of a message with a priority and three words before the text.
use ge_sensor.Prelude.{
  ℕ, ◌+◌, ◌*◌, ◌/◌, ◌^◌, ◌<◌, ◌≡◌, refl, ap, ◌∙◌, ◌&&◌, ltb, Bool, bit_and, some, List, [], ◌∷◌,
  ◌++◌, arith, ◌==◌, all_below_lem, as_u8, String,
}
use ge_sensor.Text.{trim, starts_with, strip_prefix, split_once, splitn, space, parse_u16}
use ge_sensor.Text.Laws.{Lacks, split_once-append, splitn-append, splitn_one}
use ge_sensor.Inputs.Syslog.{
  SyslogEvent, less, greater, header_event, prioritised, parse_trimmed, parse_syslog,
}

-- "<digits>first second third text".
abbrev pub message_bytes : List ℕ → List ℕ → List ℕ → List ℕ → List ℕ → List ℕ
message_bytes digits first second third text =
    (less ∷ digits)
    ++ (greater ∷ (first ++ (space ∷ (second ++ (space ∷ (third ++ (space ∷ text)))))))

-- The facility and severity of a priority.
pub record Levels (priority : ℕ) (e : SyslogEvent) : Type 0 where
  pub is_priority : e.priority ≡ priority
  pub is_sum : e.facility * 8 + e.severity ≡ priority
  pub is_severity : e.severity < 8

abbrev level_test : ℕ → Bool
level_test p = as_u8 (p / 2 ^ 3) * 8 + as_u8 (bit_and p 0x07) == p && ltb (as_u8 (bit_and p 0x07)) 8

-- The words as the parser takes them.
pub record Words (second third text : List ℕ) (e : SyslogEvent) : Type 0 where
  pub hostname : e.hostname ≡ second
  pub app_name : e.app_name ≡ third
  pub message : e.message ≡ text

words_split :
    (first second third text : List ℕ)
    → Lacks space first
    → Lacks space second
    → Lacks space third
    → splitn 4 space (first ++ (space ∷ (second ++ (space ∷ (third ++ (space ∷ text))))))
      ≡ first ∷ second ∷ third ∷ text ∷ []
words_split first second third text a b c =
    splitn-append 2 space first _ a
    ∙ ap (◌∷◌ first) (
        splitn-append 1 space second _ b
        ∙ ap (◌∷◌ second)
            (splitn-append 0 space third text c ∙ ap (◌∷◌ third) (splitn_one space text)))

-- An event with the levels of its priority, the words where the parser takes them, and the time.
pub record IsEvent (priority : ℕ) (second third text : List ℕ) (now : String) (e : SyslogEvent)
    : Type 0 where
  pub levels : Levels priority e
  pub words : Words second third text e
  pub timestamp : e.timestamp ≡ now

levels_of :
    (p : ℕ)
    → p < 2048
    → (as_u8 (p / 2 ^ 3) * 8 + as_u8 (bit_and p 0x07) ≡ p) × (as_u8 (bit_and p 0x07) < 8)
levels_of p h = let tested = all_below_lem level_test 2048 p refl h in (ground arith, ground arith)

-- In a message with a priority below 2048 and without white space at its ends, the first word
-- behind the priority is skipped, the second is taken for the host name, the third for the
-- application and all the rest for the text; the severity is below 8, and with eight times the
-- facility it adds up to the priority.
pub parse_syslog-message_bytes :
    (digits first second third text : List ℕ) (priority : ℕ) (now : String)
    → Lacks greater digits
    → Lacks space first
    → Lacks space second
    → Lacks space third
    → parse_u16 digits ≡ some priority
    → priority < 2048
    → trim (message_bytes digits first second third text)
      ≡ message_bytes digits first second third text
    → (e : SyslogEvent) × (parse_syslog (message_bytes digits first second third text) now ≡ some e)
      × IsEvent priority second third text now e
unfolding parse_syslog parse_trimmed prioritised header_event starts_with strip_prefix split_once
parse_syslog-message_bytes digits first second third text priority now g a b c p h t =
    let (is_sum, is_severity) = levels_of priority h in
    let rest = first ++ (space ∷ (second ++ (space ∷ (third ++ (space ∷ text))))) in
    let parts : splitn 4 space rest ≡ first ∷ second ∷ third ∷ text ∷ [] =
      words_split first second third text a b c in
    (
      record {
        priority = priority;
        facility = as_u8 (priority / 2 ^ 3);
        severity = as_u8 (bit_and priority 0x07);
        hostname = second;
        app_name = third;
        message = text;
        timestamp = now;
      },
      rw (t, split_once-append greater (less ∷ digits) rest (refl, g), p, parts),
      record {
        levels = record { is_priority = refl; is_sum = is_sum; is_severity = is_severity };
        words = record { hostname = refl; app_name = refl; message = refl };
        timestamp = refl;
      },
    )
