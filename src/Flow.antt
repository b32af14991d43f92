-- ===== src/Flow.antt =====
-- The flow tracker of src/flow/tracker.rs. Times are nanoseconds of the monotonic clock; what
-- `Instant::now()` returns is an argument of each call.
pub mod Keys
pub mod Table
pub mod Capacity
pub mod Update
pub mod Idle
pub mod Accounting
pub mod Features
mod Tests
use ge_sensor.Prelude.{
  ℕ, ◌+◌, ◌-◌, Bool, true, false, not, ◌&&◌, ◌||◌, Option, none, some, List, [], ◌∷◌, ◌++◌, map,
  String, bit_or, ltb, leb, ◌==◌, if◌then◌else◌, length, add_u64, as_u16,
}
use ge_sensor.Net.{IpAddr, ip_le, ip_eq}

pub record FlowKey : Type 0 where
  pub src_ip : IpAddr
  pub dst_ip : IpAddr
  pub src_port : ℕ
  pub dst_port : ℕ
  pub protocol : ℕ

-- The test that both `normalized` and `update` make of the direction.
unfoldable pub is_forward : IpAddr → IpAddr → ℕ → ℕ → Bool
is_forward src_ip dst_ip src_port dst_port =
    ip_le src_ip dst_ip || (ip_eq src_ip dst_ip && leb src_port dst_port)

unfoldable pub normalized : IpAddr → IpAddr → ℕ → ℕ → ℕ → FlowKey
normalized src_ip dst_ip src_port dst_port protocol =
    if is_forward src_ip dst_ip src_port dst_port
    then record {
      src_ip = src_ip;
      dst_ip = dst_ip;
      src_port = src_port;
      dst_port = dst_port;
      protocol = protocol;
    }
    else record {
      src_ip = dst_ip;
      dst_ip = src_ip;
      src_port = dst_port;
      dst_port = src_port;
      protocol = protocol;
    }

-- The derived `==`.
unfoldable pub key_eq : FlowKey → FlowKey → Bool
key_eq a b =
    ip_eq a.src_ip b.src_ip
    && ip_eq a.dst_ip b.dst_ip
    && (a.src_port == b.src_port)
    && (a.dst_port == b.dst_port)
    && (a.protocol == b.protocol)

pub record FlowRecord : Type 0 where
  pub key : FlowKey
  pub first_seen : ℕ
  pub last_seen : ℕ
  pub fwd_packets : ℕ
  pub rev_packets : ℕ
  pub fwd_bytes : ℕ
  pub rev_bytes : ℕ
  pub inter_arrival_times : List ℕ
  pub packet_sizes : List ℕ
  pub tcp_flags_union : ℕ
  pub dns_queries : List String

-- `FlowRecord::new` at the time that it reads itself.
unfoldable pub new_record : ℕ → FlowKey → FlowRecord
new_record now key = record {
  key = key;
  first_seen = now;
  last_seen = now;
  fwd_packets = 0;
  rev_packets = 0;
  fwd_bytes = 0;
  rev_bytes = 0;
  inter_arrival_times = [];
  packet_sizes = [];
  tcp_flags_union = 0;
  dns_queries = [];
}

pub record FlowTrackerConfig : Type 0 where
  pub max_flows : ℕ
  pub idle_timeout : ℕ
  pub max_samples : ℕ

-- 120 seconds.
abbrev pub default_config : FlowTrackerConfig
default_config = record { max_flows = 100_000; idle_timeout = 120_000_000_000; max_samples = 128 }

pub data FlowCloseReason : Type 0 where
  idle_timeout capacity_eviction tcp_fin_rst : FlowCloseReason

pub record FlowClosedEvent : Type 0 where
  pub record' : FlowRecord
  pub reason : FlowCloseReason

-- The hash map in the order in which its iterator happens to yield it.
abbrev pub FlowMap : Type 0
FlowMap = List (FlowKey × FlowRecord)

pub record FlowTracker : Type 0 where
  pub flows : FlowMap
  pub config : FlowTrackerConfig

unfoldable pub new : FlowTrackerConfig → FlowTracker
new config = record { flows = []; config = config }

unfoldable pub get : FlowKey → FlowMap → Option FlowRecord
get key [] = none
get key ((k, r) ∷ m) = if key_eq k key then some r else get key m

unfoldable pub remove : FlowKey → FlowMap → FlowMap
remove key [] = []
remove key ((k, r) ∷ m) = let rest = remove key m in if key_eq k key then m else (k, r) ∷ rest

-- `entry(key).or_insert_with(..)` and the changes made through the reference.
unfoldable pub touch : ℕ → FlowKey → (FlowRecord → FlowRecord) → FlowMap → FlowMap
touch created key f [] = (key, f (new_record created key)) ∷ []
touch created key f ((k, r) ∷ m) =
    let rest = touch created key f m in if key_eq k key then (k, f r) ∷ m else (k, r) ∷ rest

-- `min_by_key` keeps the earlier of two equal elements.
unfoldable pub earlier : FlowKey × FlowRecord → FlowKey × FlowRecord → FlowKey × FlowRecord
earlier best kr = if ltb kr.1.last_seen best.1.last_seen then kr else best

unfoldable pub oldest_of : FlowKey × FlowRecord → FlowMap → FlowKey × FlowRecord
oldest_of best [] = best
oldest_of best (kr ∷ m) = oldest_of (earlier best kr) m

unfoldable pub find_oldest_flow : FlowMap → Option FlowKey
find_oldest_flow [] = none
find_oldest_flow (kr ∷ m) = some (oldest_of kr m).0

-- The arguments of `update`.
pub record Segment : Type 0 where
  pub src_ip : IpAddr
  pub dst_ip : IpAddr
  pub src_port : ℕ
  pub dst_port : ℕ
  pub protocol : ℕ
  pub packet_len : ℕ
  pub tcp_flags : ℕ
  pub dns_query : Option String

abbrev pub key_of : Segment → FlowKey
key_of s = normalized s.src_ip s.dst_ip s.src_port s.dst_port s.protocol

abbrev pub forward : Segment → Bool
forward s = is_forward s.src_ip s.dst_ip s.src_port s.dst_port

-- `if list.len() < limit { list.push(x) }`.
abbrev pub push_below {ℓ} : {A : Type ℓ} → ℕ → A → List A → List A
push_below limit x xs = if ltb (length xs) limit then xs ++ (x ∷ []) else xs

abbrev pub push_query : Option String → List String → List String
push_query none queries = queries
push_query (some query) queries = push_below 16 query queries

-- What `update` does to the record. `-` is `duration_since`, which saturates.
unfoldable pub touch_record : ℕ → ℕ → Segment → FlowRecord → FlowRecord
touch_record max_samples now s r = record r {
  inter_arrival_times =
      if ltb 0 (add_u64 r.fwd_packets r.rev_packets)
      then push_below max_samples (now - r.last_seen) r.inter_arrival_times
      else r.inter_arrival_times;
  last_seen = now;
  fwd_packets = if forward s then add_u64 r.fwd_packets 1 else r.fwd_packets;
  fwd_bytes = if forward s then add_u64 r.fwd_bytes s.packet_len else r.fwd_bytes;
  rev_packets = if forward s then r.rev_packets else add_u64 r.rev_packets 1;
  rev_bytes = if forward s then r.rev_bytes else add_u64 r.rev_bytes s.packet_len;
  packet_sizes = push_below max_samples s.packet_len r.packet_sizes;
  tcp_flags_union = bit_or r.tcp_flags_union s.tcp_flags;
  dns_queries = push_query s.dns_query r.dns_queries;
}

abbrev pub is_none {ℓ} : {A : Type ℓ} → Option A → Bool
is_none none = true
is_none (some a) = false

-- Whether the flow at hand has to evict another.
abbrev pub at_capacity : FlowKey → FlowTracker → Bool
at_capacity key t = is_none (get key t.flows) && leb t.config.max_flows (length t.flows)

abbrev pub capacity_event : FlowRecord → FlowClosedEvent
capacity_event r = record { record' = r; reason = capacity_eviction }

-- Takes the oldest flow out, where there is one.
unfoldable pub evict_oldest : FlowMap → List FlowClosedEvent × FlowMap
evict_oldest m = elim (find_oldest_flow m) [
  | none ↦ ([], m)
  | some oldest_key ↦ elim (get oldest_key m) [
    | none ↦ ([], m)
    | some r ↦ (capacity_event r ∷ [], remove oldest_key m)
  ]
]

unfoldable pub make_room : FlowKey → FlowTracker → List FlowClosedEvent × FlowMap
make_room key t = if at_capacity key t then evict_oldest t.flows else ([], t.flows)

-- `now` is the time that `update` reads, `created` the later one that `FlowRecord::new` reads.
unfoldable pub update : ℕ → ℕ → Segment → FlowTracker → List FlowClosedEvent × FlowTracker
unfolding make_room evict_oldest
update now created s t =
    let (evicted, flows) = make_room (key_of s) t in
    (
      evicted,
      record t { flows = touch created (key_of s) (touch_record t.config.max_samples now s) flows },
    )

abbrev pub is_idle : ℕ → ℕ → FlowRecord → Bool
is_idle now timeout r = ltb timeout (now - r.last_seen)

abbrev pub idle_event : FlowRecord → FlowClosedEvent
idle_event r = record { record' = r; reason = idle_timeout }

-- The closure of `retain`, over the map: what is evicted, and what stays.
unfoldable pub retain_active : ℕ → ℕ → FlowMap → List FlowClosedEvent × FlowMap
retain_active now timeout [] = ([], [])
retain_active now timeout ((k, r) ∷ m) =
    let (evicted, kept) = retain_active now timeout m in
    if is_idle now timeout r then (idle_event r ∷ evicted, kept) else (evicted, (k, r) ∷ kept)

unfoldable pub evict_idle : ℕ → FlowTracker → List FlowClosedEvent × FlowTracker
evict_idle now t =
    let (evicted, kept) = retain_active now t.config.idle_timeout t.flows in
    (evicted, record t { flows = kept })

unfoldable pub active_count : FlowTracker → ℕ
active_count t = length t.flows

unfoldable pub all_flows : FlowTracker → List FlowRecord
all_flows t = map (λ kr. kr.1) t.flows
