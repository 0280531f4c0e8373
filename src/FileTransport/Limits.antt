-- ===== src/FileTransport/Limits.antt =====
-- The limits on the bytes and on the files, the counts that they bound, and what is in files.
use log_generator.Domain.{sent}
use log_generator.FileTransport.Pieces.{joined}
use log_generator.FileTransport.{Os, FileTransport, placed, Sending, done, place_log}
use log_generator.Prelude.Words.{u64_mod}
use log_generator.Prelude.{ℕ, ◌+◌, ◌%◌, ◌++◌, ◌≤◌, ◌<◌, ◌≡◌, ◌⊎◌, List, [], ◌∷◌, Bytes, length}

-- A limit of 0 is no limit; the sizes are 64-bit words.
pub record WithinLimits (t : FileTransport) : Type 0 where
  pub words : (t.max_total_bytes < u64_mod) × (t.max_file_count < u64_mod)
  pub bytes : (t.max_total_bytes ≡ 0) ⊎ (t.total_size ≤ t.max_total_bytes)
  pub files : (t.max_file_count ≡ 0) ⊎ (t.file_count ≤ t.max_file_count)

-- There is room for these logs.
record Fits (t : FileTransport) (bytes files : ℕ) : Type 0 where
  words : (t.max_total_bytes < u64_mod) × (t.max_file_count < u64_mod)
  bytes_fit : (t.max_total_bytes ≡ 0) ⊎ (t.total_size + bytes ≤ t.max_total_bytes)
  files_fit : (t.max_file_count ≡ 0) ⊎ (t.file_count + files ≤ t.max_file_count)

module _ {F : Type 0} (os : Os F) where
  -- Each log goes into a file of its own, one after the other.
  abbrev pub ArePlaced : ℕ → Bytes → ℕ → F → List Bytes → Type 0
  ArePlaced fuel timestamp index f [] = Unit
  ArePlaced fuel timestamp index f (log ∷ logs) =
      (index' : ℕ) × (f' : F) × (place_log os fuel timestamp index log f ≡ (placed index', f'))
      × ArePlaced fuel timestamp index' f' logs

  -- Of the pieces, `stored` are in files and `unsent` are not; the counts have grown by the stored
  -- ones, in 64 bits, and the limits are the old ones.
  pub record Accounts (fuel : ℕ) (pieces : List Bytes) (t : FileTransport) (f : F)
      (r : Sending × FileTransport × F) : Type 0 where
    pub stored : List Bytes
    pub unsent : List Bytes
    pub order : pieces ≡ stored ++ unsent
    pub in_files : ArePlaced fuel t.timestamp t.next_file_index f stored
    pub files : r.1.file_count % u64_mod ≡ (t.file_count + length stored) % u64_mod
    pub bytes : r.1.total_size % u64_mod ≡ (t.total_size + length (joined stored)) % u64_mod
    pub complete : r.0 ≡ done sent → unsent ≡ []
    pub limits : (r.1.max_total_bytes ≡ t.max_total_bytes) × (r.1.max_file_count ≡ t.max_file_count)
