-- ===== src/Output.antt =====
-- The events and their delivery to Kafka: src/output/mod.rs and src/output/kafka.rs. The arithmetic
-- of `f32` and the JSON of an event, from serde_json, are parameters.
mod Tests
use ge_sensor.Prelude.{
  ℕ, ◌+◌, ◌%◌, ◌^◌, ◌≡◌, refl, ◌∙◌, ap, Option, none, some, List, [], ◌∷◌, length, arith, add_u64,
  String,
}
use ge_sensor.Prelude.Results.{Result, ok, err}
use ge_sensor.Net.{IpAddr}
use ge_sensor.Net.Display.{show_ip}
use ge_sensor.Flow.Features.{Float}

pub record KafkaProducerConfig : Type 0 where
  pub brokers : List String
  pub topic : String
  pub cert_path : Option String
  pub key_path : Option String
  pub ca_path : Option String
  pub batch_size : ℕ
  pub linger_ms : ℕ

abbrev pub default_config : KafkaProducerConfig
default_config = record {
  brokers = "localhost:9092" ∷ [];
  topic = "ge.raw.logs";
  cert_path = none;
  key_path = none;
  ca_path = none;
  batch_size = 65536;
  linger_ms = 5;
}

pub record DeliveryStats : Type 0 where
  pub delivered : ℕ
  pub errors : ℕ
  pub bytes_sent : ℕ

pub record GeSensorKafkaProducer : Type 0 where
  pub config : KafkaProducerConfig
  pub stats : DeliveryStats

unfoldable pub new : KafkaProducerConfig → GeSensorKafkaProducer
new config = record {
  config = config;
  stats = record { delivered = 0; errors = 0; bytes_sent = 0 };
}

abbrev pub shown : Option IpAddr → String
shown none = ""
shown (some ip) = show_ip ip

module _ (fl : Float) where
  pub record GesEvent : Type 0 where
    pub timestamp : String
    pub tenant_id : String
    pub event_kind : String
    pub event_category : List String
    pub network_protocol : String
    pub source_ip : String
    pub source_port : ℕ
    pub destination_ip : String
    pub destination_port : ℕ
    pub trust_score : fl.F
    pub risk_score : fl.F
    pub raw : String
    pub merkle_hash : String
    pub ml_features : Option (List fl.F)

  -- `now` is the clock as RFC 3339 writes it.
  unfoldable pub from_packet :
      String
      → String
      → Option IpAddr
      → Option IpAddr
      → ℕ
      → ℕ
      → String
      → Option (List fl.F)
      → GesEvent
  from_packet now protocol src_ip dst_ip src_port dst_port tenant_id ml_features = record {
    timestamp = now;
    tenant_id = tenant_id;
    event_kind = "event";
    event_category = "network" ∷ [];
    network_protocol = protocol;
    source_ip = shown src_ip;
    source_port = src_port;
    destination_ip = shown dst_ip;
    destination_port = dst_port;
    trust_score = fl.lit 100 1;
    risk_score = fl.lit 0 1;
    raw = "";
    merkle_hash = "";
    ml_features = ml_features;
  }

  module _ (to_vec : GesEvent → Result String (List ℕ)) where
    unfoldable pub send :
        GesEvent → GeSensorKafkaProducer → Result String (Unit {0}) × GeSensorKafkaProducer
    send event p = elim (to_vec event) [
      | err e ↦ (err "failed to serialize GES event to JSON", p)
      | ok payload ↦ (
        ok tt,
        record p {
          stats = record p.stats {
            delivered = add_u64 p.stats.delivered 1;
            bytes_sent = add_u64 p.stats.bytes_sent (length payload);
          };
        },
      )
    ]
