-- ===== src/Config/Tests.antt =====
-- A file with only what has no default, as in the tests of src/config.rs.
use ge_sensor.Prelude.{◌↔◌, ◌≡◌, refl, none, some, String, [], ◌∷◌, arith}
use ge_sensor.Prelude.Results.{Result, ok, err}
use ge_sensor.Config.Sample.{sample}
use ge_sensor.Config.Sections.{Document}
use ge_sensor.Config.Load.{load, from_document}
use ge_sensor.Config.Filled.{from_document_iff}
use ge_sensor.Config.Valid.{Accepts, load_iff}
use ge_sensor.Config.Defaults.{written_out, from_document-written_out}

abbrev minimal : Document
minimal = record {
  sensor = some (record {
    name = some "test-sensor";
    environment = none;
    log_level = none;
    tenant_id = none;
  });
  capture = some (record { interface = some "eth0"; mode = none; promisc = none; snap_len = none });
  dissectors = none;
  pcap = none;
  ips = none;
  inputs = none;
  output = some (record {
    kafka = some (record { brokers = some ("localhost:9092" ∷ []); topic = none; mtls = none });
    dlq = none;
  });
}

minimal_fills : from_document minimal ≡ ok sample
unfolding from_document
minimal_fills = refl

abbrev reads_minimal : String → Result String Document
reads_minimal text = ok minimal

load_iff_example :
    (load reads_minimal (some "sensor: ...") ≡ ok sample)
    ↔ Accepts reads_minimal (some "sensor: ...") sample
load_iff_example = load_iff reads_minimal (some "sensor: ...") sample

minimal_loads : load reads_minimal (some "sensor: ...") ≡ ok sample
minimal_loads = load_iff_example.1 (
  "sensor: ...",
  minimal,
  refl,
  refl,
  (from_document_iff minimal sample).0 minimal_fills,
  record {
    named = omega arith;
    interface = omega arith;
    snap_len = omega arith;
    brokers = omega arith;
  },
)

no_name :
    from_document (record minimal {
      sensor =
          some (record { name = none; environment = none; log_level = none; tenant_id = none });
    })
    ≡ err "missing field `name`"
unfolding from_document
no_name = refl

from_document-written_out_example : from_document (written_out sample) ≡ ok sample
from_document-written_out_example = from_document-written_out sample
