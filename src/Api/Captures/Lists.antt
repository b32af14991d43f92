-- ===== src/Api/Captures/Lists.antt =====
-- What the API says of the stored captures: src/utils/dashboard.rs.
use ge_sensor.Prelude.{
  ℕ, ◌+◌, ◌%◌, ◌^◌, ◌<◌, ◌≡◌, refl, ◌∙◌, ap, inl, inr, none, some, List, [], ◌∷◌, arith, length,
  add_u64, Option-cases, String,
}
use ge_sensor.Dashboard.{PcapCaptureRecord}
use ge_sensor.Api.{AppState}
use ge_sensor.Api.Captures.{find_capture, collect, pcap_bulk_download}

-- The first capture with each of the ids, in their order, and none for an id that has none.
pub resolved : List PcapCaptureRecord → List String → List PcapCaptureRecord
resolved captures [] = []
resolved captures (id ∷ ids) =
    let rest = resolved captures ids in
    elim (find_capture id captures) [ none ↦ rest | some c ↦ c ∷ rest ]

abbrev pub paths : List PcapCaptureRecord → List String
paths [] = []
paths (c ∷ captures) = c.file_path ∷ paths captures

abbrev pub sizes : List PcapCaptureRecord → ℕ
sizes [] = 0
sizes (c ∷ captures) = c.size_bytes + sizes captures

length-paths : (captures : List PcapCaptureRecord) → length (paths captures) ≡ length captures
length-paths [] = refl
length-paths (c ∷ captures) = omega (arith, length-paths captures)

collect_lem :
    (captures : List PcapCaptureRecord) (ids : List String) (size : ℕ)
    → size < 2 ^ 64
    → ((collect captures ids size).0 ≡ paths (resolved captures ids))
      × ((collect captures ids size).1 ≡ (size + sizes (resolved captures ids)) % 2 ^ 64)
unfolding collect resolved
collect_lem captures [] size h = (refl, omega arith)
collect_lem captures (id ∷ ids) size h = elim (Option-cases (find_capture id captures)) [
  | inl e ↦ rw (e, collect, resolved) (collect_lem captures ids size h)
  | inr (c, e) ↦
      let ih = collect_lem captures ids (add_u64 size c.size_bytes) (omega arith) in
      rw (e, collect, resolved) (ap (◌∷◌ c.file_path) ih.0, ih.1 ∙ omega arith)
]

-- A bulk download names the files of the captures that the ids resolve to, in the order of the ids,
-- an id that is asked for twice twice and unknown ids not at all; it counts those files and gives
-- the sum of their sizes, taken modulo 2^64.
pub pcap_bulk_download-resolved :
    (ids : List String) (a : AppState)
    → let found = resolved a.sensor.pcap_captures ids in
      let r = pcap_bulk_download ids a in
      (r.files ≡ paths found)
      × (r.selected ≡ length found)
      × (r.total_size_bytes ≡ sizes found % 2 ^ 64)
unfolding pcap_bulk_download
pcap_bulk_download-resolved ids a =
    let done = collect_lem a.sensor.pcap_captures ids 0 (omega arith) in
    (
      done.0,
      ap length done.0 ∙ length-paths (resolved a.sensor.pcap_captures ids),
      done.1 ∙ omega arith,
    )
