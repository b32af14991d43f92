-- ===== src/Flow/Tests.antt =====
-- The cases of the source's tests, and the theorems at concrete trackers.
use ge_sensor.Prelude.{
  ℕ, ◌+◌, ◌%◌, ◌^◌, ◌≡◌, refl, ◌≢◌, ◌⊎◌, ◌↔◌, true, none, some, [], ◌∷◌, arith, length,
}
use ge_sensor.Net.{IpAddr, v4, ip_le, ip_eq}
use ge_sensor.Flow.{
  FlowTrackerConfig, FlowTracker, Segment, new, get, remove, update, active_count, evict_idle,
  retain_active, touch, touch_record, new_record, find_oldest_flow, oldest_of, is_forward,
  normalized, key_eq, key_of, forward,
}
use ge_sensor.Flow.Keys.{normalized_swap_iff, key_eq_iff}
use ge_sensor.Flow.Capacity.{IsTracker, new-IsTracker, update-IsTracker}
use ge_sensor.Flow.Update.{Updated, update-Updated, reply_to, reply_splits}
use ge_sensor.Flow.Accounting.{packets, given_up, update-packets}
use ge_sensor.Flow.Idle.{Idled, evict_idle-Idled}

abbrev host : IpAddr
host = v4 0xC0A80101

abbrev server : IpAddr
server = v4 0x0A000001

abbrev syn : Segment
syn = record {
  src_ip = host;
  dst_ip = server;
  src_port = 12345;
  dst_port = 80;
  protocol = 6;
  packet_len = 1500;
  tcp_flags = 0x02;
  dns_query = none;
}

abbrev other : Segment
other = record syn { src_ip = v4 0xC0A80102 }

abbrev syn_ack : Segment
syn_ack = record (reply_to syn) { packet_len = 1200; tcp_flags = 0x12 }

abbrev one_flow : FlowTrackerConfig
one_flow = record { max_flows = 1; idle_timeout = 1000; max_samples = 4 }

after_syn : FlowTracker
after_syn = (update 100 101 syn (new one_flow)).1

after_both : FlowTracker
after_both = (update 250 251 syn_ack after_syn).1

-- The reply joins the flow, in the other direction.
both_directions :
    get (key_of syn) after_both.flows
    ≡ some (record {
      key = key_of syn;
      first_seen = 101;
      last_seen = 250;
      fwd_packets = 1;
      rev_packets = 1;
      fwd_bytes = 1200;
      rev_bytes = 1500;
      inter_arrival_times = 150 ∷ [];
      packet_sizes = 1500 ∷ 1200 ∷ [];
      tcp_flags_union = 0x12;
      dns_queries = [];
    })
unfolding after_both after_syn update new get touch touch_record new_record normalized is_forward
    key_eq ip_le ip_eq
both_directions = refl

-- A second flow does not fit: the first is evicted.
capacity_eviction_run : length (update 300 301 other after_both).0 ≡ 1
unfolding after_both after_syn update new get remove touch touch_record new_record normalized
    is_forward key_eq ip_le ip_eq find_oldest_flow oldest_of
capacity_eviction_run = refl

idle_run :
    (active_count (evict_idle 1250 after_both).1 ≡ 1)
    × (active_count (evict_idle 1251 after_both).1 ≡ 0)
unfolding after_both after_syn update new get touch touch_record new_record normalized is_forward
    key_eq ip_le ip_eq evict_idle retain_active active_count
idle_run = (refl, refl)

after_syn-IsTracker : IsTracker after_syn
unfolding after_syn
after_syn-IsTracker = update-IsTracker 100 101 syn (new one_flow) (new-IsTracker one_flow)

normalized_swap_iff_example :
    (normalized host server 12345 80 6 ≡ normalized server host 80 12345 6)
    ↔ ((host ≢ server) ⊎ (◌≡◌ {A = ℕ} 12345 80))
normalized_swap_iff_example = normalized_swap_iff host server 12345 80 6

key_eq_iff_example : (key_eq (key_of syn) (key_of other) ≡ true) ↔ (key_of syn ≡ key_of other)
key_eq_iff_example = key_eq_iff (key_of syn) (key_of other)

update-IsTracker_example : IsTracker (update 300 301 other after_syn).1
update-IsTracker_example = update-IsTracker 300 301 other after_syn after_syn-IsTracker

update-Updated_example : Updated 300 301 other after_syn (update 300 301 other after_syn)
update-Updated_example = update-Updated 300 301 other after_syn after_syn-IsTracker

update-packets_example :
    (packets (update 300 301 other after_syn).1.flows + given_up (update 300 301 other after_syn).0)
      % 2 ^ 64
    ≡ (packets after_syn.flows + 1) % 2 ^ 64
update-packets_example = update-packets 300 301 other after_syn after_syn-IsTracker

evict_idle-Idled_example : Idled 1101 after_syn (evict_idle 1101 after_syn)
evict_idle-Idled_example = evict_idle-Idled 1101 after_syn after_syn-IsTracker

abbrev loopback : Segment
loopback = record syn { src_ip = server }

reply_splits_example :
    (key_of (reply_to loopback) ≢ key_of loopback)
    × (forward (reply_to loopback) ≡ true)
    × (forward loopback ≡ true)
reply_splits_example = reply_splits loopback refl (omega arith)
