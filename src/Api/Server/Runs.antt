-- ===== src/Api/Server/Runs.antt =====
-- What holds of the sensor over any sequence of requests to the server of src/utils/logging.rs.
use ge_sensor.Prelude.{
  ℕ, ◌≡◌, refl, sym, subst, inl, inr, Bool, Option, List, [], ◌∷◌, String, Outcome, done, ◌>>=◌,
  Returns, Returns-bind, Returns-at, Returns-option, Bool-cases, Option-cases, arith,
}
use ge_sensor.Prelude.Results.{Result-cases}
use ge_sensor.Flow.Features.{Float}
use ge_sensor.Ips.{IpsEngine}
use ge_sensor.Ring.{flush_to_pcap}
use ge_sensor.Ring.Flush.{flush_to_pcap_lem}
use ge_sensor.Config.{Config}
use ge_sensor.Strings.{trim, to_ascii_lowercase}
use ge_sensor.Capture.{Sensor, Saving, create_pcap_capture, keep_capture}
use ge_sensor.Capture.Safety.{IsSensor, create_pcap_capture-Returns}
use ge_sensor.Api.{AppState, with_engine}
use ge_sensor.Api.Rules.{
  NewIpsRuleRequest, insert_rule, into_rule, has_rule, add_ips_rule, delete_ips_rule, set_ips_mode,
  enter_mode, parse_mode,
}
use ge_sensor.Api.Rules.Runs.{HasDistinctRules, serve-Distinct}
use ge_sensor.Api.Rules.Runs
use ge_sensor.Api.Devices.{Device, set_interface}
use ge_sensor.Api.Dissectors.{switch, toggle_dissector}
use ge_sensor.Api.Server.{Host, Response}
use ge_sensor.Api.Server.Routing.{respond}
use ge_sensor.Api.Server.Effects.{
  Change, nothing, switches, toggles, enables, captures, adds, deletes, sets_mode, writes,
}
use ge_sensor.Api.Server.Routes.{respond-Returns}

-- The sensor is well formed and no two rules have the same id.
pub record IsSound (a : AppState) : Type 0 where
  pub sensor : IsSensor a.sensor
  pub distinct : HasDistinctRules a

create_pcap_capture-rules :
    (w : Saving) (trigger_type five_tuple rule_id : String) (s : Sensor)
    → IsSensor s
    → Returns
        (λ r. r.1.ips_engine ≡ s.ips_engine)
        (create_pcap_capture w trigger_type five_tuple rule_id s)
unfolding create_pcap_capture keep_capture
create_pcap_capture-rules w trigger_type five_tuple rule_id s v =
    Returns-option w.disk_error
      (Returns-bind (flush_to_pcap s.pcap_ring) _ _ (flush_to_pcap_lem s.pcap_ring v.ring)
        (_, refl, refl))
      (λ e. (_, refl, refl))

-- Nothing that makes a sensor well formed stands in its engine, its configuration or its disk.
moved :
    {s : Sensor} (e : IpsEngine) (c : Config) (d : List (String × List ℕ))
    → IsSensor s
    → IsSensor (record s { ips_engine = e; config = c; disk = d })
moved e c d v = record {
  ring = v.ring;
  tracker = v.tracker;
  events = v.events;
  packets = v.packets;
  captures = v.captures;
}

set_interface-sensor :
    (devices : Option (List Device)) (iface : String) (a : AppState)
    → (set_interface devices iface a).1.sensor ≡ a.sensor
unfolding set_interface
set_interface-sensor devices iface a = ground arith

toggle-IsSound :
    (name : String) (state : Bool) (a : AppState)
    → IsSound a
    → IsSound (toggle_dissector name state a).1
unfolding toggle_dissector
toggle-IsSound name state a v =
    elim (Option-cases (switch (to_ascii_lowercase name) state a.sensor.config.dissectors)) [
      | inl e ↦ rw (e, toggle_dissector) v
      | inr (d, e) ↦
          rw (e, toggle_dissector) (record { sensor = moved _ _ _ v.sensor; distinct = v.distinct })
    ]

add-IsSensor :
    (req : NewIpsRuleRequest) (a : AppState)
    → IsSensor a.sensor
    → IsSensor (add_ips_rule req a).1.sensor
unfolding add_ips_rule insert_rule
add-IsSensor req a v = elim (Result-cases (into_rule req)) [
  | inl (e, made) ↦ rw (made, add_ips_rule) v
  | inr (rule, made) ↦ elim (Bool-cases (has_rule rule.id a.sensor.ips_engine.rules)) [
    | inl old ↦ rw (made, old, add_ips_rule, insert_rule) v
    | inr new ↦ rw (made, new, add_ips_rule, insert_rule) (moved _ _ _ v)
  ]
]

mode-IsSensor :
    (text : String) (a : AppState) → IsSensor a.sensor → IsSensor (set_ips_mode text a).1.sensor
unfolding set_ips_mode enter_mode
mode-IsSensor text a v = elim (Option-cases (parse_mode (to_ascii_lowercase (trim text)))) [
  | inl e ↦ rw (e, set_ips_mode) v
  | inr (m, e) ↦ rw (e, set_ips_mode) (moved _ _ _ v)
]

Change-IsSound : {a b : AppState} → Change a b → IsSound a → IsSound b
unfolding ge_sensor.Api.set_capture_enabled delete_ips_rule add_ips_rule Runs.serve
Change-IsSound nothing v = v
Change-IsSound {a} (switches devices iface) v =
    let same = set_interface-sensor devices iface a in
    record { sensor = subst IsSensor (sym same) v.sensor; distinct = rw same v.distinct }
Change-IsSound {a} (toggles name state) v = toggle-IsSound name state a v
Change-IsSound (enables enabled) v = record { sensor = v.sensor; distinct = v.distinct }
Change-IsSound {a} (captures w {r} {s} eq) v = record {
  sensor =
      Returns-at (λ r. IsSensor r.1) _ _
        (create_pcap_capture-Returns w "manual" "manual snapshot" "" a.sensor v.sensor) eq;
  distinct =
      rw
        (Returns-at (λ r. r.1.ips_engine ≡ a.sensor.ips_engine) _ _
          (create_pcap_capture-rules w "manual" "manual snapshot" "" a.sensor v.sensor) eq)
        v.distinct;
}
Change-IsSound {a} (adds req) v = record {
  sensor = add-IsSensor req a v.sensor;
  distinct = serve-Distinct (Runs.adds req) a v.distinct;
}
Change-IsSound {a} (deletes id) v = record {
  sensor = moved _ _ _ v.sensor;
  distinct = serve-Distinct (Runs.deletes id) a v.distinct;
}
Change-IsSound {a} (sets_mode text) v = record {
  sensor = mode-IsSensor text a v.sensor;
  distinct = serve-Distinct (Runs.sets_mode text) a v.distinct;
}
Change-IsSound (writes yaml) v = record { sensor = moved _ _ _ v.sensor; distinct = v.distinct }

module _ (fl db : Float) where
  -- The responses to requests one after the other, each with what the host gives then.
  unfoldable pub respond_all : List (Host × String) → AppState → Outcome (List Response × AppState)
  respond_all [] a = done ([], a)
  respond_all ((host, request) ∷ requests) a = respond fl db host request a >>= λ out.
      respond_all requests out.1 >>= λ rest. done (out.0 ∷ rest.0, rest.1)

  -- Whatever requests arrive, in whatever surroundings, on a well-formed sensor without two rules of
  -- the same id: the server answers all of them without a panic, and so is the sensor after them.
  pub respond_all-Returns :
      (requests : List (Host × String)) (a : AppState)
      → IsSound a
      → Returns (λ out. IsSound out.1) (respond_all requests a)
  unfolding respond_all
  respond_all-Returns [] a v = (_, refl, v)
  respond_all-Returns ((host, request) ∷ requests) a v =
      let (out, eq, answered) = respond-Returns fl db host request a v.sensor in
      let (rest, eq', v') = respond_all-Returns requests out.1 (Change-IsSound answered.change v) in
      Returns-bind (respond fl db host request a) _ out eq
        (Returns-bind (respond_all requests out.1) _ rest eq' (_, refl, v'))
