-- ===== src/Config/Filled.antt =====
-- That the deserialisation of src/config.rs fills in a document as it is meant.
use ge_sensor.Prelude.{◌≡◌, refl, ap, sym, ◌∙◌, ◌↔◌, inl, inr, Option, none, some, arith, String}
use ge_sensor.Prelude.Results.{Result, ok, ok_or, >>=-eq-ok}
use ge_sensor.Config.{
  SensorConfig, CaptureConfig, DissectorConfig, PcapConfig, IpsConfig, ListenerConfig, InputsConfig,
  MtlsConfig, KafkaConfig, DlqConfig, OutputConfig, Config, default_dissectors, default_pcap,
  default_ips,
}
use ge_sensor.Config.Sections.{
  SensorSection, CaptureSection, DissectorSection, PcapSection, IpsSection, ListenerSection,
  InputsSection, MtlsSection, KafkaSection, DlqSection, OutputSection, Document,
}
use ge_sensor.Config.Load.{
  or_default, optional, section_or, sensor_of, capture_of, dissectors_of, pcap_of, ips_of,
  listener_of, inputs_of, mtls_of, kafka_of, dlq_of, output_of, inputs_or_default, from_document,
}
use ge_sensor.Config.Meaning.{
  Given, Each, Section, Needed, IsSensor, IsCapture, IsDissectors, IsPcap, IsIps, IsListener,
  IsInputs, IsMtls, IsKafka, IsDlq, IsOutput, Means, blank_dissectors, blank_pcap, blank_ips,
  blank_inputs,
}

or_default_iff :
    {A : Type 0} (default : A) (o : Option A) (v : A)
    → (or_default default o ≡ v) ↔ Given default o v
or_default_iff default none v =
    ((λ h. inr (refl, sym h)), (λ g. elim g [ inl e ↦ cc | inr (n, e) ↦ sym e ]))
or_default_iff default (some a) v =
    ((λ h. inl (ap some h)), (λ g. elim g [ inl e ↦ cc | inr (n, e) ↦ cc ]))

sensor_of_iff : (d : SensorSection) (c : SensorConfig) → (sensor_of d ≡ ok c) ↔ IsSensor d c
unfolding sensor_of
sensor_of_iff d c = (ground arith, ground arith)

capture_of_iff : (d : CaptureSection) (c : CaptureConfig) → (capture_of d ≡ ok c) ↔ IsCapture d c
unfolding capture_of
capture_of_iff d c = (ground arith, ground arith)

pcap_of_iff : (d : PcapSection) (c : PcapConfig) → (pcap_of d ≡ c) ↔ IsPcap d c
unfolding pcap_of
pcap_of_iff d c = (ground arith, ground arith)

ips_of_iff : (d : IpsSection) (c : IpsConfig) → (ips_of d ≡ c) ↔ IsIps d c
unfolding ips_of
ips_of_iff d c = (ground arith, ground arith)

listener_of_iff :
    (d : ListenerSection) (c : ListenerConfig) → (listener_of d ≡ ok c) ↔ IsListener d c
unfolding listener_of
listener_of_iff d c = (ground arith, ground arith)

mtls_of_iff : (d : MtlsSection) (c : MtlsConfig) → (mtls_of d ≡ c) ↔ IsMtls d c
mtls_of_iff d c = (ground arith, ground arith)

dlq_of_iff : (d : DlqSection) (c : DlqConfig) → (dlq_of d ≡ c) ↔ IsDlq d c
dlq_of_iff d c = (ground arith, ground arith)

dissectors_of_iff :
    (d : DissectorSection) (c : DissectorConfig) → (dissectors_of d ≡ c) ↔ IsDissectors d c
unfolding dissectors_of
dissectors_of_iff d c = (ground arith, ground arith)

optional_iff :
    {A B : Type 0} (read : A → Result String B) (R : A → B → Type 0)
    → ((a : A) (b : B) → (read a ≡ ok b) ↔ R a b)
    → (o : Option A) (v : Option B) → (optional read o ≡ ok v) ↔ Each R o v
optional_iff read R same none none = ((λ h. tt), (λ h. refl))
optional_iff read R same none (some b) = ((λ h. cc), (λ h. absurd h))
optional_iff read R same (some a) none =
    ((λ h. let (b, e, f) = >>=-eq-ok (read a) _ h in cc (f)), (λ h. absurd h))
optional_iff read R same (some a) (some b) = (
  (λ h. let (b', e, f) = >>=-eq-ok (read a) _ h in (same a b).0 (cc (e, f))),
  (λ r. rw ((same a b).1 r) refl),
)

section_or_iff :
    {A B : Type 0} (f : A → B) (R : A → B → Type 0)
    → ((a : A) (b : B) → (f a ≡ b) ↔ R a b)
    → (o : Option A) (v : Option B) → (section_or none (λ a. some (f a)) o ≡ v) ↔ Each R o v
section_or_iff f R same none none = ((λ h. tt), (λ h. refl))
section_or_iff f R same none (some b) = ((λ h. cc), (λ h. absurd h))
section_or_iff f R same (some a) none = ((λ h. cc), (λ h. absurd h))
section_or_iff f R same (some a) (some b) =
    ((λ h. (same a b).0 (cc (h))), (λ r. ap some ((same a b).1 r)))

Section-iff :
    {A B : Type 0} (default : B) (f : A → B) (blank : A) (R : A → B → Type 0)
    → f blank ≡ default
    → ((a : A) (b : B) → (f a ≡ b) ↔ R a b)
    → (o : Option A) (v : B) → (section_or default f o ≡ v) ↔ Section R blank o v
Section-iff default f blank R e same none v =
    ((λ h. (same blank v).0 (e ∙ h)), (λ r. sym e ∙ (same blank v).1 r))
Section-iff default f blank R e same (some a) v = same a v

ok_inj : {E A : Type 0} {a b : A} → ◌≡◌ {A = Result E A} (ok a) (ok b) → a ≡ b
ok_inj h = cc h

inputs_of_iff : (d : InputsSection) (c : InputsConfig) → (inputs_of d ≡ ok c) ↔ IsInputs d c
unfolding inputs_of
inputs_of_iff d c =
    let each = optional_iff listener_of IsListener listener_of_iff in
    (
      (λ h.
          let (a1, e1, h1) = >>=-eq-ok (optional listener_of d.syslog) _ h in
          let (a2, e2, h2) = >>=-eq-ok (optional listener_of d.netflow) _ h1 in
          let (a3, e3, h3) = >>=-eq-ok (optional listener_of d.snmp) _ h2 in
          let (a4, e4, h4) = >>=-eq-ok (optional listener_of d.ipfix) _ h3 in
          let (a5, e5, h5) = >>=-eq-ok (optional listener_of d.wef) _ h4 in
          let (a6, e6, h6) = >>=-eq-ok (optional listener_of d.http_webhook) _ h5 in
          let filled = ok_inj h6 in
          (
            (each d.syslog c.syslog).0 (e1 ∙ ap (λ (x : InputsConfig). ok x.syslog) filled),
            (each d.netflow c.netflow).0 (e2 ∙ ap (λ (x : InputsConfig). ok x.netflow) filled),
            (each d.snmp c.snmp).0 (e3 ∙ ap (λ (x : InputsConfig). ok x.snmp) filled),
            (each d.ipfix c.ipfix).0 (e4 ∙ ap (λ (x : InputsConfig). ok x.ipfix) filled),
            (each d.wef c.wef).0 (e5 ∙ ap (λ (x : InputsConfig). ok x.wef) filled),
            (each d.http_webhook c.http_webhook).0
                (e6 ∙ ap (λ (x : InputsConfig). ok x.http_webhook) filled),
          )),
      (λ (r1, r2, r3, r4, r5, r6).
          rw
            (
              (each d.syslog c.syslog).1 r1,
              (each d.netflow c.netflow).1 r2,
              (each d.snmp c.snmp).1 r3,
              (each d.ipfix c.ipfix).1 r4,
              (each d.wef c.wef).1 r5,
              (each d.http_webhook c.http_webhook).1 r6,
            )
            refl),
    )

kafka_of_iff : (d : KafkaSection) (c : KafkaConfig) → (kafka_of d ≡ ok c) ↔ IsKafka d c
unfolding kafka_of
kafka_of_iff d c =
    let mtls = section_or_iff mtls_of IsMtls mtls_of_iff d.mtls c.mtls in
    (ground (arith, mtls), ground (arith, mtls))

needed :
    {A : Type 0} (message : String) (o : Option A) {a : A} → ok_or message o ≡ ok a → o ≡ some a
needed message none h = cc h
needed message (some a) h = ap some (ok_inj h)

-- A section that has to be written.
Needed-at :
    {A B : Type 0} (R : A → B → Type 0) {o : Option A} {a : A} {b : B}
    → o ≡ some a
    → R a b
    → Needed R o b
Needed-at R e r = rw e r

Needed-eq :
    {A B : Type 0} (R : A → B → Type 0) (o : Option A) {b : B}
    → Needed R o b
    → (a : A) × (o ≡ some a) × R a b
Needed-eq R none n = absurd n
Needed-eq R (some a) n = (a, refl, n)

output_of_iff : (d : OutputSection) (c : OutputConfig) → (output_of d ≡ ok c) ↔ IsOutput d c
unfolding output_of
output_of_iff d c =
    let dlq = section_or_iff dlq_of IsDlq dlq_of_iff d.dlq c.dlq in
    (
      (λ h.
          let (section, e1, h1) = >>=-eq-ok (ok_or "missing field `kafka`" d.kafka) _ h in
          let (kafka, e2, h2) = >>=-eq-ok (kafka_of section) _ h1 in
          let filled = ok_inj h2 in
          (
            Needed-at IsKafka (needed _ d.kafka e1) (
                (kafka_of_iff section c.kafka).0
                  (e2 ∙ ap (λ (x : OutputConfig). ok x.kafka) filled)),
            dlq.0 (ap (λ (x : OutputConfig). x.dlq) filled),
          )),
      (λ (kafka, q).
          let (section, e, k) = Needed-eq IsKafka d.kafka kafka in
          rw (e, (kafka_of_iff section c.kafka).1 k, dlq.1 q) refl),
    )

inputs_or_default_iff :
    (o : Option InputsSection) (c : InputsConfig)
    → (inputs_or_default o ≡ ok c) ↔ Section IsInputs blank_inputs o c
unfolding inputs_or_default
inputs_or_default_iff none c = (ground arith, ground arith)
inputs_or_default_iff (some d) c = inputs_of_iff d c

-- A document is read as a configuration exactly if that is what it means.
pub from_document_iff : (d : Document) (c : Config) → (from_document d ≡ ok c) ↔ Means d c
unfolding from_document dissectors_of pcap_of ips_of
from_document_iff d c =
    let dissectors =
      Section-iff default_dissectors dissectors_of blank_dissectors IsDissectors refl
        dissectors_of_iff d.dissectors c.dissectors in
    let pcap = Section-iff default_pcap pcap_of blank_pcap IsPcap refl pcap_of_iff d.pcap c.pcap in
    let ips = Section-iff default_ips ips_of blank_ips IsIps refl ips_of_iff d.ips c.ips in
    (
      (λ h.
          let (s1, e1, h1) = >>=-eq-ok (ok_or "missing field `sensor`" d.sensor) _ h in
          let (sensor, e2, h2) = >>=-eq-ok (sensor_of s1) _ h1 in
          let (s3, e3, h3) = >>=-eq-ok (ok_or "missing field `capture`" d.capture) _ h2 in
          let (capture, e4, h4) = >>=-eq-ok (capture_of s3) _ h3 in
          let (inputs, e5, h5) = >>=-eq-ok (inputs_or_default d.inputs) _ h4 in
          let (s6, e6, h6) = >>=-eq-ok (ok_or "missing field `output`" d.output) _ h5 in
          let (output, e7, h7) = >>=-eq-ok (output_of s6) _ h6 in
          let filled = ok_inj h7 in
          record {
            sensor =
                Needed-at IsSensor (needed _ d.sensor e1)
                  ((sensor_of_iff s1 c.sensor).0 (e2 ∙ ap (λ (x : Config). ok x.sensor) filled));
            capture =
                Needed-at IsCapture (needed _ d.capture e3)
                  ((capture_of_iff s3 c.capture).0 (e4 ∙ ap (λ (x : Config). ok x.capture) filled));
            dissectors = dissectors.0 (ap (λ (x : Config). x.dissectors) filled);
            pcap = pcap.0 (ap (λ (x : Config). x.pcap) filled);
            ips = ips.0 (ap (λ (x : Config). x.ips) filled);
            inputs =
                (inputs_or_default_iff d.inputs c.inputs).0
                  (e5 ∙ ap (λ (x : Config). ok x.inputs) filled);
            output =
                Needed-at IsOutput (needed _ d.output e6)
                  ((output_of_iff s6 c.output).0 (e7 ∙ ap (λ (x : Config). ok x.output) filled));
          }),
      (λ m.
          let (s1, e1, r1) = Needed-eq IsSensor d.sensor m.sensor in
          let (s3, e3, r3) = Needed-eq IsCapture d.capture m.capture in
          let (s6, e6, r6) = Needed-eq IsOutput d.output m.output in
          rw
            (
              e1,
              (sensor_of_iff s1 c.sensor).1 r1,
              e3,
              (capture_of_iff s3 c.capture).1 r3,
              (inputs_or_default_iff d.inputs c.inputs).1 m.inputs,
              e6,
              (output_of_iff s6 c.output).1 r6,
              dissectors.1 m.dissectors,
              pcap.1 m.pcap,
              ips.1 m.ips,
            )
            refl),
    )
