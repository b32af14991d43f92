-- ===== src/Api/Server/Routes.antt =====
-- Which requests change what: all branches of the server of src/utils/logging.rs.
use ge_sensor.Prelude.{refl, Bool, String, Outcome, done, Returns, Returns-if, if◌then◌else◌}
use ge_sensor.Strings.{contains, starts_with}
use ge_sensor.Flow.Features.{Float}
use ge_sensor.Capture.Safety.{IsSensor}
use ge_sensor.Api.{AppState, with_engine}
use ge_sensor.Api.Server.{Host, Response}
use ge_sensor.Api.Server.Routing.{respond, respond_captures, respond_sensor}
use ge_sensor.Api.Server.Effects.{Answered, unchanged}
use ge_sensor.Api.Server.Handlers.{
  get_set_interface-Answered, get_toggle_dissector-Answered, with_field-Answered,
  with_body-Answered, capturing-Answered, post_rule-Answered, post_mode-Answered,
  post_config-Answered, delete_rule-Answered, post_manual_capture-Returns,
}

branch :
    {a : AppState} (b : Bool) {x y : Outcome (Response × AppState)}
    → Returns (Answered a) x
    → Returns (Answered a) y
    → Returns (Answered a) (if b then x else y)
branch b p q = Returns-if b (λ e. p) (λ e. q)

quiet : {a : AppState} (r : Response) → Returns (Answered a) (done (r, a))
quiet {a} r = (_, refl, unchanged a r)

acts : {a : AppState} {out : Response × AppState} → Answered a out → Returns (Answered a) (done out)
acts p = (_, refl, p)

module _ (fl db : Float) (host : Host) (request : String) (a : AppState) where
  respond_sensor-Returns : Returns (Answered a) (respond_sensor fl db host request a)
  unfolding respond_sensor
  respond_sensor-Returns = branch (contains request "GET /api/ips/rules") (quiet _) (
      branch (contains request "GET /api/ips/events") (quiet _) (
        branch (starts_with request "POST /api/ips/rules")
          (acts (post_rule-Answered host request a))
          (branch (starts_with request "DELETE /api/ips/rules/")
            (acts (delete_rule-Answered host request a))
            (branch (contains request "GET /api/ips") (quiet _) (
              branch (starts_with request "POST /api/ips/mode")
                (acts (post_mode-Answered host request a))
                (branch (contains request "GET /api/config") (quiet _) (
                  branch (starts_with request "POST /api/config")
                    (acts (post_config-Answered host request a))
                    (branch (contains request "GET /api/state") (quiet _) (
                      branch (contains request "GET /metrics") (quiet _)
                        (branch (contains request "GET /health") (quiet _) (quiet _)))))))))))

  respond_captures-Returns :
      IsSensor a.sensor → Returns (Answered a) (respond_captures fl db host request a)
  unfolding respond_captures ge_sensor.Api.Server.Answers.post_bulk_download
  respond_captures-Returns v = branch (contains request "GET /api/pcap/storage") (quiet _) (
      branch (contains request "GET /api/pcap/captures") (quiet _) (
        branch (starts_with request "POST /api/pcap/capture/manual")
          (post_manual_capture-Returns host request a v)
          (branch (contains request "GET /api/pcap/download") (quiet _) (
            branch (contains request "GET /api/pcap/reconstruct") (quiet _) (
              branch (starts_with request "POST /api/pcap/bulk-download")
                (acts (with_body-Answered host request a host.bulk_ids _ (λ ids. unchanged a _)))
                respond_sensor-Returns)))))

  pub respond-Returns : IsSensor a.sensor → Returns (Answered a) (respond fl db host request a)
  unfolding respond ge_sensor.Api.Server.Answers.get_capture_toggle
      ge_sensor.Api.Server.Answers.post_capture_toggle
  respond-Returns v = branch (contains request "GET /api/pcap/file") (quiet _) (
      branch (contains request "GET /api/set-interface")
        (acts (get_set_interface-Answered host request a))
        (branch (contains request "GET /api/toggle-dissector")
          (acts (get_toggle_dissector-Answered host request a))
          (branch (contains request "GET /api/packets") (quiet _) (
            branch (contains request "GET /api/interfaces") (quiet _) (
              branch (contains request "GET /api/flows") (quiet _) (
                branch (contains request "GET /api/capture/toggle")
                  (acts (capturing-Answered host request a _))
                  (branch (starts_with request "POST /api/capture/toggle")
                    (acts (
                      with_field-Answered host request a "enabled" (host.get_bool "enabled") _
                        (capturing-Answered host request a)))
                    (respond_captures-Returns v))))))))
