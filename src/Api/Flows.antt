-- ===== src/Api/Flows.antt =====
-- The flows as the API of src/utils/dashboard.rs shows them: `flow_details`. The arithmetic of `f32`
-- and of `f64` is a parameter each.
pub mod Sorted
use ge_sensor.Prelude.{
  ℕ, zero, suc, ◌+◌, ◌-◌, Bool, true, false, List, [], ◌∷◌, map, get_or, length, ◌==◌,
  if◌then◌else◌, String,
}
use mathlib.Core.List.{foldl}
use ge_sensor.Net.Display.{show_ip}
use ge_sensor.Flow.{FlowRecord, FlowTracker, all_flows}
use ge_sensor.Flow.Features
use ge_sensor.Flow.Features.{Float, extract_features}

module _ (fl db : Float) where
  pub record FlowDetailRecord : Type 0 where
    pub src_ip : String
    pub dst_ip : String
    pub src_port : ℕ
    pub dst_port : ℕ
    pub protocol : String
    pub fwd_packets : ℕ
    pub rev_packets : ℕ
    pub fwd_bytes : ℕ
    pub rev_bytes : ℕ
    pub duration_secs : db.F
    pub bytes_ratio : fl.F
    pub dns_entropy : fl.F
    pub beaconing_score : fl.F
    pub conn_rate : fl.F
    pub off_hours_pct : fl.F
    pub ml_score : fl.F

  pub record FlowsResponse : Type 0 where
    pub total_flows : ℕ
    pub tcp_flows : ℕ
    pub udp_flows : ℕ
    pub anomalous : ℕ
    pub avg_duration : db.F
    pub flows : List FlowDetailRecord

  abbrev pub feature : List fl.F → ℕ → fl.F
  feature feats i = get_or feats i (fl.lit 0 1)

  -- The weighted sum, cut at 1.
  unfoldable pub ml_score_of : List fl.F → fl.F
  ml_score_of feats =
      let weighted = λ (x : fl.F) (n : ℕ). fl.mul x (fl.lit n 100) in
      let part = λ (i n : ℕ). weighted (feature feats i) n in
      fl.fmin
        (fl.add
          (fl.add
            (fl.add
              (fl.add
                (fl.add (part Features.beaconing_score 25) (
                  weighted
                    (fl.div (fl.fmin (feature feats Features.dns_entropy) (fl.lit 5 1))
                      (fl.lit 5 1))
                    15))
                (part Features.traffic_asymmetry 15))
              (part Features.tcp_flag_anomaly 25))
            (part Features.off_hours_pct 10))
          (weighted
            (fl.div (fl.fmin (feature feats Features.conn_rate) (fl.lit 1000 1)) (fl.lit 1000 1))
            10))
        (fl.lit 1 1)

  abbrev pub protocol_text : ℕ → String
  protocol_text protocol =
      if protocol == 6
      then "TCP"
      else if protocol == 17
      then "UDP"
      else if protocol == 1
      then "ICMP"
      else "OTHER"

  abbrev pub duration_of : ℕ → FlowRecord → db.F
  duration_of now r = db.as_secs (now - r.first_seen)

  unfoldable pub detail_of : ℕ → FlowRecord → FlowDetailRecord
  detail_of now r =
      let feats = extract_features fl r in
      record {
        src_ip = show_ip r.key.src_ip;
        dst_ip = show_ip r.key.dst_ip;
        src_port = r.key.src_port;
        dst_port = r.key.dst_port;
        protocol = protocol_text r.key.protocol;
        fwd_packets = r.fwd_packets;
        rev_packets = r.rev_packets;
        fwd_bytes = r.fwd_bytes;
        rev_bytes = r.rev_bytes;
        duration_secs = duration_of now r;
        bytes_ratio = feature feats Features.bytes_ratio;
        dns_entropy = feature feats Features.dns_entropy;
        beaconing_score = feature feats Features.beaconing_score;
        conn_rate = feature feats Features.conn_rate;
        off_hours_pct = feature feats Features.off_hours_pct;
        ml_score = ml_score_of feats;
      }

  -- The loop's counters.
  unfoldable pub count_protocol : ℕ → List FlowRecord → ℕ
  count_protocol protocol [] = 0
  count_protocol protocol (r ∷ flows) =
      (if r.key.protocol == protocol then 1 else 0) + count_protocol protocol flows

  -- Insertion that keeps the order of equal elements: the standard library's `sort_by` is stable.
  unfoldable pub insert_by_score : FlowDetailRecord → List FlowDetailRecord → List FlowDetailRecord
  insert_by_score x [] = x ∷ []
  insert_by_score x (y ∷ ys) =
      let rest = insert_by_score x ys in
      if fl.lt x.ml_score y.ml_score then y ∷ rest else x ∷ y ∷ ys

  unfoldable pub sort_by_score : List FlowDetailRecord → List FlowDetailRecord
  unfolding insert_by_score
  sort_by_score [] = []
  sort_by_score (x ∷ xs) = insert_by_score x (sort_by_score xs)

  unfoldable pub count_anomalous : List FlowDetailRecord → ℕ
  count_anomalous [] = 0
  count_anomalous (f ∷ flows) =
      (if fl.lt (fl.lit 5 10) f.ml_score then 1 else 0) + count_anomalous flows

  unfoldable pub flow_details : ℕ → FlowTracker → FlowsResponse
  flow_details now t =
      let records = all_flows t in
      let flows = sort_by_score (map (detail_of now) records) in
      let total = length flows in
      let total_duration = foldl (λ d r. db.add d (duration_of now r)) (db.lit 0 1) records in
      record {
        total_flows = total;
        tcp_flows = count_protocol 6 records;
        udp_flows = count_protocol 17 records;
        anomalous = count_anomalous flows;
        avg_duration = if total == 0 then db.lit 0 1 else db.div total_duration (db.of_int total);
        flows = flows;
      }
