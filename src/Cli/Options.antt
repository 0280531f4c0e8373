-- ===== src/Cli/Options.antt =====
-- src/presentation/cli_app.cpp: the options that `parse_arguments` reads, one after another.
use log_generator.Cli.State.{help, Parsing, with_options, with_config, with_endpoint}
use log_generator.Catalog.{valid_sample_id}
use log_generator.Cli.Values.{lowercase, parse_unsigned, parse_signed, parse_date}
use log_generator.Domain.{
  udp, tcp, tls, file, newline, octet_counting, sequential, parallel, one_event_per_datagram,
  newline_packed, EndpointConfig,
}
use log_generator.Prelude.Result.{Result, ok, throws, invalid_argument, ◌>>=◌, ◌>>◌, throw_if}
use log_generator.Prelude.{
  ℕ, ◌-◌, ◌*◌, ◌/◌, ◌^◌, Bool, true, false, not, ◌||◌, List, [], ◌∷◌, ◌++◌, Option, none, some, ltb,
  ◌==◌, if◌then◌else◌, Bytes, codes, words, equal,
}
use log_generator.Privacy.{equals_any}

-- The options without a value.
unfoldable pub set_flag : Bytes → Parsing → Option Parsing
set_flag option p =
    let o = p.options in
    if equal option (codes "--help") || equal option (codes "-h")
    then some (with_options p (record o { command = help }))
    else if equal option (codes "--all")
    then some (with_options p (record o { all_samples = true }))
    else if equal option (codes "--insecure")
    then some (with_endpoint p (record o.config.endpoint { verify_certificate = false }))
    else if equal option (codes "--quiet")
    then some (with_options p (record o { quiet = true }))
    else none

-- A value out of a few words.
abbrev choose {ℓ} : {A : Type ℓ} → Bytes → List (Bytes × A) → Bytes → Result A
choose value [] message = throws (invalid_argument message)
choose value ((word, a) ∷ choices) message =
    let later = choose value choices message in if equal value word then ok a else later

abbrev pub u64_max : ℕ
u64_max = 2 ^ 64 - 1

abbrev pub seconds_in_milliseconds : ℕ
seconds_in_milliseconds = (2 ^ 63 - 1) / 1000

-- The options of the network and of the files.
unfoldable pub set_endpoint : Bytes → Bytes → EndpointConfig → Option (Result EndpointConfig)
unfolding parse_unsigned
set_endpoint option value e =
    if equal option (codes "--protocol")
    then some (do
      protocol ←
          choose (lowercase value)
            ((codes "udp", udp)
              ∷ (codes "tcp", tcp)
              ∷ (codes "tls", tls)
              ∷ (codes "file", file)
              ∷ [])
            (codes "--protocol 값은 udp, tcp, tls, file 중 하나여야 합니다")
      ok (record e { protocol = protocol }))
    else if equal option (codes "--host")
    then some (ok (record e { host = value }))
    else if equal option (codes "--port")
    then some (do
      port ← parse_unsigned 65535 value option
      throw_if (port == 0) (invalid_argument (codes "--port 값은 1 이상이어야 합니다"))
      ok (record e { port = port }))
    else if equal option (codes "--udp-integration")
    then some (do
      integration ←
          choose (lowercase value)
            ((codes "deny", one_event_per_datagram) ∷ (codes "allow", newline_packed) ∷ [])
            (codes "--udp-integration 값은 deny 또는 allow여야 합니다")
      ok (record e { udp_packetization = integration }))
    else if equal option (codes "--tls-server-name")
    then some (ok (record e { tls_server_name = value }))
    else if equal option (codes "--framing")
    then some (do
      framing ←
          choose (lowercase value)
            ((codes "newline", newline) ∷ (codes "octet", octet_counting) ∷ [])
            (codes "--framing 값은 newline 또는 octet이어야 합니다")
      ok (record e { framing = framing }))
    else if equal option (codes "--output-dir")
    then some (ok (record e { file_output_directory = value }))
    else if equal option (codes "--file-max-mib")
    then some (do
      mib ← parse_unsigned u64_max value option
      throw_if (ltb (u64_max / (1024 * 1024)) mib)
          (invalid_argument (codes "--file-max-mib 값이 너무 큽니다"))
      ok (record e { file_max_total_bytes = mib * (1024 * 1024) }))
    else if equal option (codes "--file-max-count")
    then some (do
      count ← parse_unsigned (2 ^ 32 - 1) value option
      ok (record e { file_max_count = count }))
    else if equal option (codes "--file-max-duration")
    then some (do
      seconds ← parse_unsigned u64_max value option
      throw_if (ltb seconds_in_milliseconds seconds)
          (invalid_argument (codes "--file-max-duration 값이 너무 큽니다"))
      ok (record e { file_max_duration = seconds * 1000 }))
    else none

-- The other options with a value.
unfoldable pub set_run : Bytes → Bytes → Parsing → Result Parsing
unfolding parse_unsigned parse_signed parse_date valid_sample_id
set_run option value p =
    let o = p.options in
    let c = p.options.config in
    if equal option (codes "--catalog")
    then ok (with_options p (record o { catalog_file = value }))
    else if equal option (codes "--sample-id")
    then (do
      throw_if (not (valid_sample_id value))
          (invalid_argument (codes "--sample-id 값은 숫자로만 구성되어야 합니다"))
      ok (with_options p (record o { sample_ids = o.sample_ids ++ value ∷ [] })))
    else if equal option (codes "--source-ip")
    then ok (with_config p (record c { source_ip = value }))
    else if equal option (codes "--destination-ip")
    then ok (with_config p (record c { destination_ip = value }))
    else if equal option (codes "--mode")
    then (do
      mode ←
          choose (lowercase value)
            ((codes "sequential", sequential) ∷ (codes "parallel", parallel) ∷ [])
            (codes "--mode 값은 sequential 또는 parallel이어야 합니다")
      ok (with_config p (record c { transmission_mode = mode })))
    else if equal option (codes "--eps")
    then (do
      eps ← parse_unsigned u64_max value option
      ok (with_config p (record c { target_eps = eps })))
    else if equal option (codes "--duration")
    then (do
      seconds ← parse_unsigned u64_max value option
      throw_if (ltb (2 ^ 63 - 1) seconds) (invalid_argument (codes "--duration 값이 너무 큽니다"))
      ok (with_options p (record o { duration = seconds })))
    else if equal option (codes "--status-interval")
    then (do
      seconds ← parse_unsigned u64_max value option
      throw_if (seconds == 0 || ltb seconds_in_milliseconds seconds)
          (invalid_argument (codes "--status-interval 값은 1 이상의 초여야 합니다"))
      ok (with_options p (record o { status_interval = seconds * 1000 })))
    else if equal option (codes "--offset-minutes")
    then (do minutes ← parse_signed value option; ok (record p { offset_minutes = minutes }))
    else if equal option (codes "--from")
    then (do date ← parse_date value option; ok (record p { range_start = some date }))
    else if equal option (codes "--to")
    then (do date ← parse_date value option; ok (record p { range_end = some date }))
    else throws (invalid_argument (codes "알 수 없는 옵션: " ++ option))

unfoldable pub set_value : Bytes → Bytes → Parsing → Result Parsing
unfolding set_endpoint set_run
set_value option value p = elim (set_endpoint option value p.options.config.endpoint) [
  | some made ↦ made >>= λ e. ok (with_endpoint p e)
  | none ↦ set_run option value p
]

-- The names of the options that call `value()`.
abbrev takes_value : Bytes → Bool
takes_value option = equals_any option (
    words
      "--catalog --sample-id --protocol --host --port --udp-integration --tls-server-name --framing --source-ip --destination-ip --mode --eps --duration --status-interval --output-dir --file-max-mib --file-max-count --file-max-duration --offset-minutes --from --to")

missing_value : Bytes → Result Parsing
missing_value option =
    if takes_value option
    then throws (invalid_argument (option ++ codes " 옵션에 값이 필요합니다"))
    else throws (invalid_argument (codes "알 수 없는 옵션: " ++ option))

-- The loop over the arguments after the command.
unfoldable pub parse_options : List Bytes → Parsing → Result Parsing
unfolding set_flag set_value missing_value
parse_options [] p = ok p
parse_options (option ∷ []) p = elim (set_flag option p) [
  | some q ↦ ok q
  | none ↦ missing_value option
]
parse_options (option ∷ value ∷ arguments) p = elim (set_flag option p) [
  | some q ↦ parse_options (value ∷ arguments) q
  | none ↦ set_value option value p >>= λ q. parse_options arguments q
]
