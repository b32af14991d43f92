-- ===== src/Flow/Features.antt =====
-- The features of a flow: src/flow/features.rs. The arithmetic of `f32` is a parameter, and so are
-- the conversions into it; `lit n d` is the literal that stands for n / d.
pub mod Entropy
pub mod Anomaly
use mathlib.Core.List.{foldl}
use ge_sensor.Prelude.{
  ℕ, zero, suc, ◌+◌, ◌-◌, ◌*◌, ◌%◌, ◌^◌, Bool, true, false, not, ◌&&◌, Option, none, some, List, [],
  ◌∷◌, map, bit_and, ltb, ◌==◌, if◌then◌else◌, length, is_empty, get_or, set, add_u64, String,
}
use ge_sensor.Strings.{concat, as_bytes, is_empty_text}
use ge_sensor.Flow.{FlowRecord}

pub record Float : Type 1 where
  pub F : Type 0
  pub lit : ℕ → ℕ → F
  pub of_int : ℕ → F
  pub as_secs : ℕ → F
  pub add : F → F → F
  pub sub : F → F → F
  pub mul : F → F → F
  pub div : F → F → F
  pub abs : F → F
  pub squared : F → F
  pub sqrt : F → F
  pub log2 : F → F
  pub fmin : F → F → F
  pub fmax : F → F → F
  pub lt : F → F → Bool

-- The indices of `idx`.
abbrev pub conn_rate : ℕ
conn_rate = 0

abbrev pub unique_dst : ℕ
unique_dst = 1

abbrev pub dns_entropy : ℕ
dns_entropy = 2

abbrev pub beaconing_score : ℕ
beaconing_score = 3

abbrev pub traffic_asymmetry : ℕ
traffic_asymmetry = 4

abbrev pub off_hours_pct : ℕ
off_hours_pct = 5

abbrev pub iat_mean : ℕ
iat_mean = 6

abbrev pub bytes_ratio : ℕ
bytes_ratio = 7

abbrev pub packet_size_var : ℕ
packet_size_var = 10

abbrev pub tcp_flag_anomaly : ℕ
tcp_flag_anomaly = 11

abbrev pub zero_counts : ℕ → List ℕ
zero_counts zero = []
zero_counts (suc n) = 0 ∷ zero_counts n

-- `freq[b as usize] += 1`, on a u32.
unfoldable pub count_byte : List ℕ → ℕ → List ℕ
count_byte freq b = set freq b ((get_or freq b 0 + 1) % 2 ^ 32)

unfoldable pub frequencies : List ℕ → List ℕ
unfolding count_byte
frequencies bytes = foldl count_byte (zero_counts 256) bytes

abbrev pub has : ℕ → ℕ → Bool
has flags mask = not (bit_and flags mask == 0)

module _ (fl : Float) where
  open fl use {
    F, lit, of_int, as_secs, add, sub, mul, div, abs, squared, sqrt, log2, fmin, fmax, lt,
  }

  abbrev pub nought : F
  nought = lit 0 1

  unfoldable pub sum : List F → F
  sum xs = foldl add nought xs

  -- One round of the loop over the counts.
  unfoldable pub subtract_share : F → F → ℕ → F
  subtract_share total entropy count =
      if ltb 0 count
      then (let p = div (of_int count) total in sub entropy (mul p (log2 p)))
      else entropy

  unfoldable pub compute_dns_entropy : List String → F
  unfolding frequencies subtract_share
  compute_dns_entropy queries =
      let combined = as_bytes (concat queries) in
      if is_empty queries
      then nought
      else if is_empty combined
      then nought
      else foldl (subtract_share (of_int (length combined))) nought (frequencies combined)

  abbrev pub millis : ℕ → F
  millis d = mul (as_secs d) (lit 1000 1)

  unfoldable pub variance_about : F → List F → F
  unfolding sum
  variance_about mean values =
      div (sum (map (λ v. squared (sub v mean)) values)) (of_int (length values))

  unfoldable pub score_of : F → F → F
  score_of mean variance =
      let cv = div (sqrt variance) mean in fmax (sub (lit 1 1) (fmin cv (lit 1 1))) nought

  unfoldable pub compute_beaconing_score : List ℕ → F
  unfolding sum variance_about score_of
  compute_beaconing_score iats =
      if ltb (length iats) 2
      then nought
      else let values = map millis iats in
        let mean = div (sum values) (of_int (length values)) in
        if lt mean (lit 1 1000) then nought else score_of mean (variance_about mean values)

  unfoldable pub compute_iat_mean : List ℕ → F
  unfolding sum
  compute_iat_mean iats =
      if is_empty iats then nought else div (sum (map millis iats)) (of_int (length iats))

  unfoldable pub compute_variance : List ℕ → F
  unfolding sum variance_about
  compute_variance sizes =
      if ltb (length sizes) 2
      then nought
      else let values = map of_int sizes in
        variance_about (div (sum values) (of_int (length values))) values

  unfoldable pub compute_tcp_flag_anomaly : ℕ → F
  compute_tcp_flag_anomaly flags =
      let a = if has flags 0x02 && has flags 0x01 then add nought (lit 5 10) else nought in
      let b = if has flags 0x01 && has flags 0x08 && has flags 0x20 then add a (lit 5 10) else a in
      let c = if flags == 0 then add b (lit 3 10) else b in fmin c (lit 1 1)

  -- The array of 14, in the order of the indices.
  unfoldable pub extract_features : FlowRecord → List F
  extract_features r =
      let packets = add_u64 r.fwd_packets r.rev_packets in
      let bytes = add_u64 r.fwd_bytes r.rev_bytes in
      fl.div (of_int packets) (fmax (as_secs (r.last_seen - r.first_seen)) (lit 1 1000))
      ∷ lit 1 1
      ∷ compute_dns_entropy r.dns_queries
      ∷ compute_beaconing_score r.inter_arrival_times
      ∷ (if ltb 0 bytes
          then div (abs (sub (of_int r.fwd_bytes) (of_int r.rev_bytes))) (of_int bytes)
          else nought)
      ∷ nought
      ∷ compute_iat_mean r.inter_arrival_times
      ∷ (if ltb 0 packets then div (of_int bytes) (of_int packets) else nought)
      ∷ nought
      ∷ nought
      ∷ compute_variance r.packet_sizes
      ∷ compute_tcp_flag_anomaly r.tcp_flags_union
      ∷ nought
      ∷ nought
      ∷ []
