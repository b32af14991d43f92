-- ===== src/Capture/Files.antt =====
-- The capture files of src/utils/dashboard.rs: which files stand on the disk for the captures that
-- are listed.
use ge_sensor.Prelude.{
  ℕ, suc, ◌^◌, ◌≤◌, ◌<◌, ◌≡◌, some, List, [], ◌∷◌, length, lookup, update_or_insert, String,
}
use ge_sensor.Dashboard.{PcapCaptureRecord}
use ge_sensor.Capture.{Sensor, capture_id, capture_file, capture_path}

-- The file of the capture of a number.
abbrev pub path_of : ℕ → String
path_of n = capture_path (capture_file (capture_id n))

-- The file is there, as long as its record says.
abbrev pub HasFile : List (String × List ℕ) → ℕ → PcapCaptureRecord → Type 0
HasFile disk n c =
    (c.file_path ≡ path_of n)
    × ((file : List ℕ) × (lookup (path_of n) disk ≡ some file) × (length file ≡ c.size_bytes))

-- The captures have rising numbers from `low` and below `high`, and their files on the disk.
abbrev pub Stored : List (String × List ℕ) → ℕ → List PcapCaptureRecord → ℕ → Type 0
Stored disk low [] high = low ≤ high
Stored disk low (c ∷ captures) high =
    (n : ℕ) × (low ≤ n) × (n < high) × HasFile disk n c × Stored disk (suc n) captures high

-- A disk on which the files of the numbers from `low` and below `high` are as before.
abbrev Keeps : List (String × List ℕ) → List (String × List ℕ) → ℕ → ℕ → Type 0
Keeps before after low high =
    (n : ℕ) → low ≤ n → n < high → lookup (path_of n) after ≡ lookup (path_of n) before

module _ (c : PcapCaptureRecord) (file : List ℕ) (high : ℕ) (h : suc high < 2 ^ 64) where
  abbrev with_file : List (String × List ℕ) → List (String × List ℕ)
  with_file disk = update_or_insert (path_of high) file (λ old. file) disk

-- The captures listed have files.
abbrev pub HasFiles : Sensor → Type 0
HasFiles s = Stored s.disk 0 s.pcap_captures s.pcap_seq
