-- ===== src/Runtime.antt =====
-- src/infrastructure/posix_execution_runtime.cpp and windows_execution_runtime.cpp: how many workers
-- fit a machine; src/infrastructure/runtime_paths.cpp: where the files of the program are. A path is
-- the list of its parts; what the file system says and does is an argument.
use log_generator.Domain.{TransportProtocol, file, udp}
use log_generator.Prelude.Result.{Result, ok, invalid_argument, runtime_error, ◌>>◌, throw_if}
use log_generator.Prelude.Words.{clamp}
use log_generator.Prelude.{
  ℕ, ◌+◌, ◌-◌, ◌/◌, ◌≤◌, min, max, Bool, true, false, not, ◌&&◌, ◌||◌, List, [], ◌∷◌, ◌++◌, Option,
  none, some, ltb, Bytes, codes, is_empty, arith, if◌then◌else◌,
}

-- `hardware` is `std::thread::hardware_concurrency()`.
unfoldable pub optimal_worker_count : ℕ → TransportProtocol → ℕ
optimal_worker_count hardware file = 1
optimal_worker_count hardware udp =
    let detected = max 1 hardware in min detected (clamp ((detected + 3) / 4) 2 8)
optimal_worker_count hardware _ =
    let detected = max 1 hardware in clamp (if ltb 2 detected then detected - 1 else detected) 1 16

pub optimal_worker_count_bounds :
    (hardware : ℕ) (protocol : TransportProtocol)
    → (1 ≤ optimal_worker_count hardware protocol) × (optimal_worker_count hardware protocol ≤ 16)
unfolding optimal_worker_count
optimal_worker_count_bounds hardware file = ground arith
optimal_worker_count_bounds hardware udp = ground arith
optimal_worker_count_bounds hardware _ = ground arith

abbrev pub FileParts : Type 0
FileParts = List Bytes

pub record RuntimePaths : Type 0 where
  pub application_directory : FileParts
  pub data_directory : FileParts
  pub bundled_catalog_file : FileParts
  pub catalog_file : FileParts
  pub log_directory : FileParts
  pub generated_directory : FileParts
  pub font_directory : FileParts
  pub packaged : Bool

abbrev catalog_parts : FileParts
catalog_parts = codes "Sample Logs" ∷ codes "sample_logs.json" ∷ []

abbrev is_missing : Option FileParts → Bool
is_missing none = false
is_missing (some p) = is_empty p

-- `package_data_directory.value_or(application)`.
abbrev value_or : FileParts → Option FileParts → FileParts
value_or application none = application
value_or application (some p) = p

abbrev has_value : Option FileParts → Bool
has_value none = false
has_value (some p) = true

unfoldable pub resolve_runtime_paths :
    (FileParts → Bool) → FileParts → FileParts → Option FileParts → Result RuntimePaths
resolve_runtime_paths exists application working package_directory = do
  throw_if (is_empty application || is_missing package_directory)
      (invalid_argument (codes "Application and package data directories must not be empty"))
  let packaged = has_value package_directory
  let directory = value_or application package_directory
  let bundled = application ++ catalog_parts
  let chosen = if packaged then directory ++ catalog_parts else bundled
  ok (record {
    application_directory = application;
    data_directory = directory;
    bundled_catalog_file = bundled;
    catalog_file = if not packaged && not (exists chosen) then working ++ catalog_parts else chosen;
    log_directory = directory ++ codes "logs" ∷ [];
    generated_directory = directory ++ codes "generated" ∷ [];
    font_directory = application ++ codes "fonts" ∷ [];
    packaged = packaged;
  })

-- `initialize_runtime_catalog`: `publish` copies the bundled catalog and links the copy to its place,
-- and says whether that failed; it may have failed because another process was first.
unfoldable pub initialize_runtime_catalog :
    (FileParts → Bool) → (FileParts → Bool) → Bool → Bool → RuntimePaths → Result (Unit {0})
initialize_runtime_catalog exists is_regular_file publish_failed regular_afterwards paths =
    if not paths.packaged
    then ok tt
    else if exists paths.catalog_file
    then throw_if (not (is_regular_file paths.catalog_file))
        (runtime_error (codes "The user sample catalog path is not a regular file"))
    else throw_if (publish_failed && not regular_afterwards)
        (runtime_error (codes "Unable to initialize the user sample catalog"))
