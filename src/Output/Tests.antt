-- ===== src/Output/Tests.antt =====
-- The test of src/output/kafka.rs.
use ge_sensor.Prelude.{◌≡◌, refl, none, some, [], ◌∷◌}
use ge_sensor.Prelude.Results.{ok}
use ge_sensor.Net.{v4}
use ge_sensor.Flow.Features.{Float}
use ge_sensor.Output.{GesEvent, from_packet, new, default_config, send}

module _ (fl : Float) where
  abbrev event : GesEvent fl
  event =
      from_packet fl "now" "tcp" (some (v4 0x0A000001)) (some (v4 0x0A000002)) 1234 80 "test-tenant"
        none

  source_shown : event.source_ip ≡ "10.0.0.1"
  unfolding from_packet ge_sensor.Net.Display.show_ip
  source_shown = refl

  sent_once : (send fl (λ e. ok (1 ∷ 2 ∷ 3 ∷ [])) event (new default_config)).1.stats.delivered ≡ 1
  unfolding send new
  sent_once = refl
