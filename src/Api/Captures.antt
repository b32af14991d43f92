-- ===== src/Api/Captures.antt =====
-- The captures as the API of src/utils/dashboard.rs stores, filters and resolves them. The share of
-- the ring in use, a float, is held as its two whole numbers.
pub mod Lists
use ge_sensor.Prelude.{
  ℕ, ◌+◌, ◌-◌, ◌*◌, ◌/◌, ◌%◌, ◌^◌, Bool, true, false, ◌||◌, Option, none, some, List, [], ◌∷◌, leb,
  if◌then◌else◌, length, retain, add_u64, str_eq, String,
}
use ge_sensor.Prelude.Results.{Result, ok, err, ◌>>=◌, ok_or}
use ge_sensor.Strings.{concat, contains, to_ascii_lowercase, eq_ignore_ascii_case, is_empty_text}
use ge_sensor.Ring.{bytes_used}
use ge_sensor.Dashboard.{PcapCaptureRecord}
use ge_sensor.Api.{AppState}

pub record PcapStorageResponse : Type 0 where
  pub stored_captures : ℕ
  pub total_size_bytes : ℕ
  pub ring_buffer_mb : ℕ
  pub ring_alloc_bytes : ℕ
  pub ring_buffer_used_bytes : ℕ
  pub trigger_mode : String
  pub retention_days : ℕ
  pub index_type : String
  pub storage_backend : String
  pub compression : String
  pub max_capture_mb : ℕ
  pub today_captures : ℕ
  pub alert_triggered : ℕ
  pub manual_captures : ℕ
  pub captures : List PcapCaptureRecord

abbrev pub mentions : String → String → Bool
mentions needle text = contains (to_ascii_lowercase text) needle

unfoldable pub passes : String → PcapCaptureRecord → Bool
passes needle c =
    mentions needle c.capture_id
    || mentions needle c.five_tuple
    || mentions needle c.rule_id
    || mentions needle c.trigger_type

unfoldable pub filtered : Option String → List PcapCaptureRecord → List PcapCaptureRecord
unfolding passes
filtered none captures = captures
filtered (some filter) captures =
    let needle = to_ascii_lowercase filter in
    if is_empty_text needle then captures else retain (passes needle) captures

unfoldable pub total_size : List PcapCaptureRecord → ℕ
total_size [] = 0
total_size (c ∷ captures) = add_u64 c.size_bytes (total_size captures)

abbrev pub count_if : (PcapCaptureRecord → Bool) → List PcapCaptureRecord → ℕ
count_if test captures = length (retain test captures)

-- `now` is the wall clock in seconds.
unfoldable pub pcap_storage : ℕ → Option String → AppState → PcapStorageResponse
unfolding filtered total_size
pcap_storage now filter a =
    let cfg = a.sensor.config in
    let captures = filtered filter a.sensor.pcap_captures in
    record {
      stored_captures = length captures;
      total_size_bytes = total_size captures;
      ring_buffer_mb = cfg.pcap.ring_buffer_mb;
      ring_alloc_bytes = cfg.pcap.ring_buffer_mb * 1024 * 1024;
      ring_buffer_used_bytes = bytes_used a.sensor.pcap_ring;
      trigger_mode = cfg.pcap.trigger;
      retention_days = cfg.pcap.retention_days;
      index_type = "5-tuple + timestamp";
      storage_backend = "filesystem + ring buffer";
      compression = "none";
      max_capture_mb = 50;
      today_captures = count_if (λ c. leb (now - c.timestamp) 86_400) captures;
      alert_triggered = count_if (λ c. eq_ignore_ascii_case c.trigger_type "alert") captures;
      manual_captures = count_if (λ c. eq_ignore_ascii_case c.trigger_type "manual") captures;
      captures = captures;
    }

unfoldable pub find_capture : String → List PcapCaptureRecord → Option PcapCaptureRecord
find_capture id [] = none
find_capture id (c ∷ captures) =
    let rest = find_capture id captures in if str_eq c.capture_id id then some c else rest

abbrev pub not_found : String → String
not_found id = concat ("capture '" ∷ id ∷ "' not found" ∷ [])

pub record PcapDownloadResponse : Type 0 where
  pub is_ok : Bool
  pub capture_id : String
  pub file_path : String
  pub size_bytes : ℕ

unfoldable pub pcap_download : String → AppState → Result String PcapDownloadResponse
pcap_download id a = ok_or (not_found id) (find_capture id a.sensor.pcap_captures) >>= λ c.
    ok (record {
      is_ok = true;
      capture_id = c.capture_id;
      file_path = c.file_path;
      size_bytes = c.size_bytes;
    })

pub record PcapBulkDownloadResponse : Type 0 where
  pub is_ok : Bool
  pub selected : ℕ
  pub total_size_bytes : ℕ
  pub files : List String

-- The loop over the ids: the files found, and their size on top of what was counted so far.
unfoldable pub collect : List PcapCaptureRecord → List String → ℕ → List String × ℕ
collect captures [] size = ([], size)
collect captures (id ∷ ids) size = elim (find_capture id captures) [
  | none ↦ collect captures ids size
  | some c ↦
      let rest = collect captures ids (add_u64 size c.size_bytes) in (c.file_path ∷ rest.0, rest.1)
]

unfoldable pub pcap_bulk_download : List String → AppState → PcapBulkDownloadResponse
pcap_bulk_download ids a =
    let found = collect a.sensor.pcap_captures ids 0 in
    record { is_ok = true; selected = length found.0; total_size_bytes = found.1; files = found.0 }

pub record PcapReconstructResponse : Type 0 where
  pub is_ok : Bool
  pub capture_id : String
  pub summary : String
  pub five_tuple : String
  pub estimated_packets : ℕ
  pub duration : ℕ

unfoldable pub pcap_reconstruct : String → AppState → Result String PcapReconstructResponse
pcap_reconstruct id a = ok_or (not_found id) (find_capture id a.sensor.pcap_captures) >>= λ c.
    ok (record {
      is_ok = true;
      capture_id = c.capture_id;
      summary =
          concat ("Reconstructed session for " ∷ c.five_tuple ∷ " (" ∷ c.trigger_type ∷ ")" ∷ []);
      five_tuple = c.five_tuple;
      estimated_packets = c.size_bytes / 128;
      duration = c.duration;
    })
