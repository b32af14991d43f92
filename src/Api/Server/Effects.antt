-- ===== src/Api/Server/Effects.antt =====
-- What the server of src/utils/logging.rs does to the state of the sensor.
use ge_sensor.Prelude.{
  ◌≡◌, refl, ap, ◌⊎◌, inl, inr, Bool, false, Option, List, String, done, Bool-cases, arith,
}
use ge_sensor.Prelude.Results.{Result, ok, err, Result-cases}
use ge_sensor.Dashboard.{PcapCaptureRecord}
use ge_sensor.Capture.{Sensor, Saving, create_pcap_capture}
use ge_sensor.Api.{AppState, set_capture_enabled}
use ge_sensor.Api.Rules.{
  NewIpsRuleRequest, IpsRuleApi, into_rule, has_rule, add_ips_rule, delete_ips_rule, set_ips_mode,
}
use ge_sensor.Api.Rules.Added.{add_ips_rule-Adds, delete_ips_rule_lem}
use ge_sensor.Api.Devices.{Device, set_interface}
use ge_sensor.Api.Dissectors.{toggle_dissector}
use ge_sensor.Api.Server.{Response, json_answer}
use ge_sensor.Api.Server.Answers.{with_config_file}

-- The ways in which a request may change the state: one call of one method, or a new file.
pub data Change (a : AppState) : AppState → Type 0 where
  nothing : Change a a
  switches :
      (devices : Option (List Device)) (iface : String) → Change a (set_interface devices iface a).1
  toggles : (name : String) (state : Bool) → Change a (toggle_dissector name state a).1
  enables : (enabled : Bool) → Change a (set_capture_enabled enabled a).1
  captures :
      (w : Saving) {r : Result String PcapCaptureRecord} {s : Sensor}
      → create_pcap_capture w "manual" "manual snapshot" "" a.sensor ≡ done (r, s)
      → Change a (record a { sensor = s })
  adds : (req : NewIpsRuleRequest) → Change a (add_ips_rule req a).1
  deletes : (id : String) → Change a (delete_ips_rule id a).1
  sets_mode : (text : String) → Change a (set_ips_mode text a).1
  writes : (yaml : String) → Change a (with_config_file yaml a)

abbrev pub IsServed : String → Type 0
IsServed status = (status ≡ "200 OK") ⊎ (status ≡ "500 Internal Server Error")

-- One change at most, and none under another status.
pub record Answered (a : AppState) (out : Response × AppState) : Type 0 where
  pub change : Change a out.1
  pub refused : IsServed out.0.status ⊎ (out.1 ≡ a)

pub unchanged : (a : AppState) (r : Response) → Answered a (r, a)
unchanged a r = record { change = nothing; refused = inr refl }

pub json_answer-IsServed : (r : Result String String) → IsServed (json_answer r).status
json_answer-IsServed (ok json) = inl refl
json_answer-IsServed (err e) = inr refl

pub set_interface_refused :
    (devices : Option (List Device)) (iface : String) (a : AppState)
    → (set_interface devices iface a).0 ≡ false
    → (set_interface devices iface a).1 ≡ a
unfolding set_interface
set_interface_refused devices iface a h = ground arith

pub toggle_refused :
    (name : String) (state : Bool) (a : AppState)
    → (toggle_dissector name state a).0 ≡ false
    → (toggle_dissector name state a).1 ≡ a
unfolding toggle_dissector
toggle_refused name state a h = ground arith

pub delete_refused :
    (id : String) (a : AppState) {e : String}
    → (delete_ips_rule id a).0 ≡ err e
    → (delete_ips_rule id a).1 ≡ a
delete_refused id a h = elim (Bool-cases (has_rule id a.sensor.ips_engine.rules)) [
  | inl known ↦ absurd (cc ((delete_ips_rule_lem id a).0 known))
  | inr unknown ↦
      ap (λ (r : Result String (Unit {0}) × AppState). r.1) ((delete_ips_rule_lem id a).1 unknown)
]

pub add_refused :
    (req : NewIpsRuleRequest) (a : AppState) {e : String}
    → (add_ips_rule req a).0 ≡ err e
    → (add_ips_rule req a).1 ≡ a
add_refused req a h =
    let adds = add_ips_rule-Adds req a in
    let state = λ (r : Result String IpsRuleApi × AppState). r.1 in
    elim (Result-cases (into_rule req)) [
      | inl (e, made) ↦ ap state (adds.refused e made)
      | inr (rule, made) ↦ elim (Bool-cases (has_rule rule.id a.sensor.ips_engine.rules)) [
        | inl old ↦ ap state (adds.taken rule made old)
        | inr new ↦ absurd (cc (adds.added rule made new))
      ]
    ]

pub mode_refused :
    (text : String) (a : AppState) {e : String}
    → (set_ips_mode text a).0 ≡ err e
    → (set_ips_mode text a).1 ≡ a
unfolding set_ips_mode
mode_refused text a h = ground arith
