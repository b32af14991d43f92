-- ===== src/Api/Server/Handlers.antt =====
-- What each handler of the server of src/utils/logging.rs does to the state.
use ge_sensor.Prelude.{
  refl, inl, inr, Bool, Option, none, some, String, Returns, Returns-bind, Bool-cases, Option-cases,
}
use ge_sensor.Prelude.Results.{Result, ok, err, Result-cases}
use ge_sensor.Strings.{is_empty_text}
use ge_sensor.Dashboard.{PcapCaptureRecord}
use ge_sensor.Capture.{create_pcap_capture}
use ge_sensor.Capture.Safety.{IsSensor, create_pcap_capture-Returns}
use ge_sensor.Api.{AppState}
use ge_sensor.Api.Rules.{NewIpsRuleRequest, add_ips_rule, delete_ips_rule, set_ips_mode}
use ge_sensor.Api.Devices.{set_interface}
use ge_sensor.Api.Dissectors.{toggle_dissector}
use ge_sensor.Api.Server.{Host, Response, json_answer, internal_error, answer}
use ge_sensor.Api.Server.Answers.{
  get_set_interface, get_toggle_dissector, post_manual_capture, post_rule, delete_rule, post_mode,
  post_config, accepted_answer, deleted_answer, captured_answer, with_field, with_body,
  with_config_file, capturing,
}
use ge_sensor.Api.Server.Requests.{iface_of, toggle_of, body_of, parse_request_path, strip_prefix}
use ge_sensor.Api.Server.Effects.{
  switches, toggles, enables, captures, adds, deletes, sets_mode, writes, IsServed, Answered,
  unchanged, json_answer-IsServed, set_interface_refused, toggle_refused, delete_refused,
  add_refused, mode_refused,
}

module _ (host : Host) (request : String) (a : AppState) where
  pub get_set_interface-Answered : Answered a (get_set_interface host request a)
  unfolding get_set_interface
  get_set_interface-Answered =
      let iface = iface_of request in
      elim (Bool-cases (is_empty_text iface)) [
        | inl e ↦ rw e (unchanged a _)
        | inr e ↦ elim (Bool-cases (set_interface host.devices iface a).0) [
          | inl s ↦
              rw (e, s) (record { change = switches host.devices iface; refused = inl (inl refl) })
          | inr s ↦
              rw (e, s)
                (record {
                  change = switches host.devices iface;
                  refused = inr (set_interface_refused host.devices iface a s);
                })
        ]
      ]

  pub get_toggle_dissector-Answered : Answered a (get_toggle_dissector host request a)
  unfolding get_toggle_dissector
  get_toggle_dissector-Answered =
      let name = (toggle_of request).0 in
      let state = (toggle_of request).1 in
      elim (Bool-cases (is_empty_text name)) [
        | inl e ↦ rw e (unchanged a _)
        | inr e ↦ elim (Bool-cases (toggle_dissector name state a).0) [
          | inl s ↦ rw (e, s) (record { change = toggles name state; refused = inl (inl refl) })
          | inr s ↦
              rw (e, s)
                (record {
                  change = toggles name state;
                  refused = inr (toggle_refused name state a s);
                })
        ]
      ]

  pub with_field-Answered :
      {A : Type 0} (name : String) (get : host.Value → Option A) (act : A → Response × AppState)
      → ((field : A) → Answered a (act field))
      → Answered a (with_field host request a name get act)
  with_field-Answered name get act h = elim (Option-cases (body_of request)) [
    | inl e ↦ rw (e, with_field) (unchanged a _)
    | inr (body, e) ↦ elim (Option-cases (host.parse_value body)) [
      | inl p ↦ rw (e, p, with_field) (unchanged a _)
      | inr (v, p) ↦ elim (Option-cases (get v)) [
        | inl g ↦ rw (e, p, g, with_field) (unchanged a _)
        | inr (field, g) ↦ rw (e, p, g, with_field) (h field)
      ]
    ]
  ]

  pub with_body-Answered :
      {A : Type 0} (read : String → Result String A) (act : A → Response × AppState)
      → ((value : A) → Answered a (act value))
      → Answered a (with_body host request a read act)
  with_body-Answered read act h = elim (Option-cases (body_of request)) [
    | inl e ↦ rw (e, with_body) (unchanged a _)
    | inr (body, e) ↦ elim (Result-cases (read body)) [
      | inl (message, r) ↦ rw (e, r, with_body) (unchanged a _)
      | inr (value, r) ↦ rw (e, r, with_body) (h value)
    ]
  ]

  pub served : {A : Type 0} (value : A) → IsServed (json_answer (host.to_json value)).status
  served value = json_answer-IsServed (host.to_json value)

  pub capturing-Answered : (enabled : Bool) → Answered a (capturing host request a enabled)
  capturing-Answered enabled = record { change = enables enabled; refused = inl (inl refl) }

  pub post_rule-Answered : Answered a (post_rule host request a)
  unfolding post_rule
  post_rule-Answered = with_body-Answered host.rule_request _ by_rule
    where
      by_rule :
          (req : NewIpsRuleRequest)
          → Answered a
              (accepted_answer host request a (add_ips_rule req a).0, (add_ips_rule req a).1)
      by_rule req = elim (Result-cases (add_ips_rule req a).0) [
        | inl (e, r) ↦ record { change = adds req; refused = inr (add_refused req a r) }
        | inr (rule, r) ↦ record { change = adds req; refused = inl (rw r (served rule)) }
      ]

  pub post_mode-Answered : Answered a (post_mode host request a)
  unfolding post_mode
  post_mode-Answered = with_field-Answered "mode" (host.get_str "mode") _ by_mode
    where
      by_mode :
          (mode : String)
          → Answered a
              (accepted_answer host request a (set_ips_mode mode a).0, (set_ips_mode mode a).1)
      by_mode mode = elim (Result-cases (set_ips_mode mode a).0) [
        | inl (e, r) ↦ record { change = sets_mode mode; refused = inr (mode_refused mode a r) }
        | inr (updated, r) ↦ record {
          change = sets_mode mode;
          refused = inl (rw r (served updated));
        }
      ]

  pub post_config-Answered : Answered a (post_config host request a)
  unfolding post_config
  post_config-Answered = with_field-Answered "yaml" (host.get_str "yaml") _ by_fault
    where
      by_fault :
          (yaml : String)
          → Answered a (elim host.write_fault [
            | some e ↦ (internal_error e, a)
            | none ↦ (answer "200 OK" "{\"ok\":true}", with_config_file yaml a)
          ])
      by_fault yaml = elim (Option-cases host.write_fault) [
        | inl e ↦ rw e (record { change = writes yaml; refused = inl (inl refl) })
        | inr (fault, e) ↦ rw e (unchanged a _)
      ]

  pub delete_rule-Answered : Answered a (delete_rule host request a)
  unfolding delete_rule
  delete_rule-Answered = elim (Option-cases (parse_request_path request)) [
    | inl e ↦ rw (e, delete_rule) (unchanged a _)
    | inr (path, e) ↦ elim (Option-cases (strip_prefix path "/api/ips/rules/")) [
      | inl s ↦ rw (e, s, delete_rule) (unchanged a _)
      | inr (id, s) ↦ elim (Bool-cases (is_empty_text id)) [
        | inl b ↦ rw (e, s, b, delete_rule) (unchanged a _)
        | inr b ↦ rw (e, s, b, delete_rule) (by_outcome id)
      ]
    ]
  ]
    where
      by_outcome :
          (id : String)
          → Answered a
              (deleted_answer host request a id (delete_ips_rule id a).0, (delete_ips_rule id a).1)
      by_outcome id = elim (Result-cases (delete_ips_rule id a).0) [
        | inl (e, r) ↦ record { change = deletes id; refused = inr (delete_refused id a r) }
        | inr (u, r) ↦ record { change = deletes id; refused = inl (rw r (inl refl)) }
      ]

  captured-IsServed :
      (r : Result String PcapCaptureRecord) → IsServed (captured_answer host request a r).status
  captured-IsServed (err e) = inr refl
  captured-IsServed (ok capture) = served capture

  pub post_manual_capture-Returns :
      IsSensor a.sensor → Returns (Answered a) (post_manual_capture host request a)
  unfolding post_manual_capture
  post_manual_capture-Returns v =
      let (made, eq, p) =
        create_pcap_capture-Returns host.saving "manual" "manual snapshot" "" a.sensor v in
      Returns-bind (create_pcap_capture host.saving "manual" "manual snapshot" "" a.sensor) _ made
        eq
        (
          _,
          refl,
          record { change = captures host.saving eq; refused = inl (captured-IsServed made.0) },
        )
