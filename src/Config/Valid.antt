-- ===== src/Config/Valid.antt =====
-- Which files `Config::load` of src/config.rs accepts.
use Prim.Native.String.{count}
use ge_sensor.Prelude.{◌≡◌, ap, ◌∙◌, ◌↔◌, ◌≤◌, Option, none, some, arith, length, String}
use ge_sensor.Prelude.Results.{Result, ok, err, ok_or, >>=-eq-ok}
use ge_sensor.Config.{Config}
use ge_sensor.Config.Sections.{Document}
use ge_sensor.Config.Load.{LoadError, load, from_document, validated, in_context}
use ge_sensor.Config.Meaning.{Means}
use ge_sensor.Config.Filled.{from_document_iff}

-- What is asked of a configuration.
pub record IsUsable (c : Config) : Type 0 where
  pub named : 1 ≤ count c.sensor.name
  pub interface : 1 ≤ count c.capture.interface
  pub snap_len : (64 ≤ c.capture.snap_len) × (c.capture.snap_len ≤ 65_535)
  pub brokers : 1 ≤ length c.output.kafka.brokers

validated-IsUsable : (c d : Config) → validated c ≡ ok d → (d ≡ c) × IsUsable c
unfolding validated
validated-IsUsable c d h = ground arith

usable_validated : (c : Config) → IsUsable c → validated c ≡ ok c
unfolding validated
usable_validated c u = ground (arith, u.named, u.interface, u.snap_len, u.brokers)

ok_or-eq-ok : {E A : Type 0} (e : E) (o : Option A) {a : A} → ok_or e o ≡ ok a → o ≡ some a
ok_or-eq-ok e none h = cc
ok_or-eq-ok e (some a) h = cc

in_context-eq-ok : {A : Type 0} (r : Result String A) {a : A} → in_context r ≡ ok a → r ≡ ok a
in_context-eq-ok (ok a) h = cc
in_context-eq-ok (err e) h = cc

module _ (parse : String → Result String Document) (contents : Option String) where
  -- The file can be read and parsed, means this configuration, and its values are within the limits.
  abbrev pub Accepts : Config → Type 0
  Accepts c =
      (text : String) × (d : Document) × (contents ≡ some text)
      × (parse text ≡ ok d)
      × Means d c
      × IsUsable c

  loaded : (c : Config) → load parse contents ≡ ok c → Accepts c
  unfolding load
  loaded c h =
      let (text, read, h1) = >>=-eq-ok (ok_or LoadError.unreadable contents) _ h in
      let (d, parsed, h2) = >>=-eq-ok (in_context (parse text)) _ h1 in
      let (c', filled, h3) = >>=-eq-ok (in_context (from_document d)) _ h2 in
      let (same, usable) = validated-IsUsable c' c h3 in
      (
        text,
        d,
        ok_or-eq-ok _ contents read,
        in_context-eq-ok (parse text) parsed,
        (from_document_iff d c).0 (in_context-eq-ok (from_document d) filled ∙ ap ok (cc)),
        rw same usable,
      )

  -- Loading gives a configuration exactly if the file can be read and parsed; its document writes the
  -- name of the sensor, the interface of the capture, the brokers of Kafka and the port of every
  -- listener that it has; each value of the configuration is the one that is written, or else the
  -- default of its field, in sections that are left out too, where there is a default, while
  -- listeners, mTLS and the dead-letter queue are there exactly if they are written; and the sensor
  -- and the interface have names, the snapshot length is 64 to 65535, and there is a Kafka broker.
  pub load_iff : (c : Config) → (load parse contents ≡ ok c) ↔ Accepts c
  unfolding load
  load_iff c = (
    loaded c,
    (λ (text, d, read, parsed, meant, usable).
        rw (read, parsed, (from_document_iff d c).1 meant, load) (usable_validated c usable)),
  )
