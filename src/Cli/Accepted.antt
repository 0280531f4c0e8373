-- ===== src/Cli/Accepted.antt =====
-- What the command line accepts.
use log_generator.Cli.Values.{parse_unsigned, valid_ipv4, lowercase}
use log_generator.Privacy.{equals_any}
use log_generator.Cli.{
  u64_max, seconds_in_milliseconds, CliCommand, list, run, default_options, start_parsing,
  CliOptions, Parsing, is_run, is_list, finish, set_flag, set_run, set_endpoint, with_endpoint,
  set_value, parse_options, parse_command, parse_arguments, finish_timestamps, check_options,
  offset_of_minutes, set_generation,
}
use log_generator.Domain.{is_packed, is_udp, offset, valid, TimestampGenerationMode, EndpointConfig}
use log_generator.Prelude.Int.{ℤ, pos, ◌+ℤ◌, ◌-ℤ◌, ◌*ℤ◌, leb_ℤ, scale_parts, +ℤ_parts, -ℤ_parts}
use log_generator.Prelude.Result.{
  Exception, invalid_argument, Result, ok, throws, ◌>>=◌, throw_if, >>=-eq-ok, ok-injective,
  throw_if-eq-ok,
}
use log_generator.Prelude.{
  ◌≡◌, ◌⊎◌, Bytes, ◌∷◌, refl, ◌∙◌, ◌++◌, ap, is_digit, ltb, ◌-◌, ◌^◌, ◌==◌, if◌then◌else◌, if-cases,
  equal, codes, words, sym, subst, inl, inr, Bool, true, false, not, ◌||◌, List, [], Option, none,
  some, is_empty, arith,
}

-- The options fit together.
pub record AreConsistent (o : CliOptions) : Type 0 where
  pub chosen : (is_run o.command ≡ false) ⊎ (o.all_samples ≡ is_empty o.sample_ids)
  pub listed :
      (is_list o.command ≡ false) ⊎ ((o.all_samples ≡ false) × (is_empty o.sample_ids ≡ true))
  pub addresses :
      (valid_ipv4 o.config.source_ip ≡ true) × (valid_ipv4 o.config.destination_ip ≡ true)
  pub packing :
      (is_packed o.config.endpoint.udp_packetization ≡ false)
      ⊎ (is_udp o.config.endpoint.protocol ≡ true)
  pub dates :
      (o.config.timestamp_generation.mode ≡ offset)
      ⊎ (valid o.config.timestamp_generation.range ≡ true)

-- Whole days in order make a range of seconds in order.
valid-days :
    (first last : ℤ)
    → leb_ℤ first last ≡ true
    → valid (record { start = first *ℤ pos 86400; end = (last +ℤ pos 1) *ℤ pos 86400 -ℤ pos 1 })
      ≡ true
unfolding valid
valid-days first last h = ground (
  arith,
  scale_parts first 86400,
  scale_parts (last +ℤ pos 1) 86400,
  +ℤ_parts last (pos 1),
  -ℤ_parts ((last +ℤ pos 1) *ℤ pos 86400) (pos 1),
)

abbrev HasDates : CliOptions → CliOptions → Type 0
HasDates o r =
    ((r.config.timestamp_generation.mode ≡ offset)
      ⊎ (valid r.config.timestamp_generation.range ≡ true))
    × (r ≡ set_generation o r.config.timestamp_generation)

finish_timestamps-dates :
    (first last : Option ℤ) (minutes : ℤ) (o r : CliOptions)
    → o.config.timestamp_generation.mode ≡ offset
    → finish_timestamps first last minutes o ≡ ok r
    → HasDates o r
unfolding finish_timestamps set_generation
finish_timestamps-dates (some first) (some last) minutes o r m h =
    let (_, ordered, h') = >>=-eq-ok (throw_if (not (leb_ℤ first last)) _) _ h in
    subst (HasDates o) (ok-injective h')
      (inr (valid-days first last (not_false _ (throw_if-eq-ok _ _ ordered))), refl)
  where
    not_false : (b : Bool) → not b ≡ false → b ≡ true
    not_false b e = ground arith
finish_timestamps-dates none none minutes o r m h =
    let (made, _, h') = >>=-eq-ok (offset_of_minutes minutes) _ h in
    subst (HasDates o) (ok-injective h') (inl m, refl)
finish_timestamps-dates (some first) none minutes o r m h = cc
finish_timestamps-dates none (some last) minutes o r m h = cc

checks :
    (o : CliOptions)
    → check_options o ≡ ok tt
    → ((is_run o.command ≡ false) ⊎ (o.all_samples ≡ is_empty o.sample_ids))
      × ((is_list o.command ≡ false) ⊎ ((o.all_samples ≡ false) × (is_empty o.sample_ids ≡ true)))
      × ((valid_ipv4 o.config.source_ip ≡ true) × (valid_ipv4 o.config.destination_ip ≡ true))
      × ((is_packed o.config.endpoint.udp_packetization ≡ false)
          ⊎ (is_udp o.config.endpoint.protocol ≡ true))
unfolding check_options
checks o h = ground arith

finish-AreConsistent :
    (p : Parsing) (o : CliOptions)
    → p.options.config.timestamp_generation.mode ≡ offset
    → finish p ≡ ok o
    → AreConsistent o
unfolding finish set_generation
finish-AreConsistent p o m h =
    let (_, checked, h') = >>=-eq-ok (check_options p.options) _ h in
    let (dates, same) =
      finish_timestamps-dates p.range_start p.range_end p.offset_minutes p.options o m h' in
    let (chosen, listed, addresses, packing) = checks p.options checked in
    rw same (record {
      chosen = chosen;
      listed = listed;
      addresses = addresses;
      packing = packing;
      dates = dates;
    })

mode_of : Parsing → TimestampGenerationMode
mode_of p = p.options.config.timestamp_generation.mode

set_flag-mode :
    (option : Bytes) (p q : Parsing) → set_flag option p ≡ some q → mode_of q ≡ mode_of p
unfolding set_flag mode_of
set_flag-mode option p q h = ground arith

-- Whatever parsing gives, the mode is that of `p`.
abbrev Keeps : Parsing → Result Parsing → Type 0
Keeps p r = (q : Parsing) → r ≡ ok q → mode_of q ≡ mode_of p

module _ (p : Parsing) where
  Keeps-ok : {q : Parsing} → mode_of q ≡ mode_of p → Keeps p (ok q)
  Keeps-ok e r h = ap mode_of (sym (ok-injective h)) ∙ e

  Keeps-throws : (e : Exception) → Keeps p (throws e)
  Keeps-throws e q h = cc

  Keeps-bind :
      {A : Type 0} (m : Result A) (f : A → Result Parsing)
      → ((a : A) → Keeps p (f a))
      → Keeps p (m >>= f)
  Keeps-bind m f k q h = let (a, _, h') = >>=-eq-ok m f h in k a q h'

  Keeps-if :
      (b : Bool) {x y : Result Parsing} → Keeps p x → Keeps p y → Keeps p (if b then x else y)
  Keeps-if true k l = k
  Keeps-if false k l = l

set_run-mode : (option value : Bytes) (p : Parsing) → Keeps p (set_run option value p)
unfolding set_run mode_of
set_run-mode option value p = Keeps-if p (equal option (codes "--catalog")) (Keeps-ok p refl) (
    Keeps-if p (equal option (codes "--sample-id")) (Keeps-bind p _ _ (λ _. Keeps-ok p refl)) (
      Keeps-if p (equal option (codes "--source-ip")) (Keeps-ok p refl) (
        Keeps-if p (equal option (codes "--destination-ip")) (Keeps-ok p refl) (
          Keeps-if p (equal option (codes "--mode")) (Keeps-bind p _ _ (λ _. Keeps-ok p refl)) (
            Keeps-if p (equal option (codes "--eps")) (Keeps-bind p _ _ (λ _. Keeps-ok p refl)) (
              Keeps-if p (equal option (codes "--duration"))
                (Keeps-bind p (parse_unsigned u64_max value option) _ (λ n.
                  Keeps-bind p
                    (throw_if (ltb (2 ^ 63 - 1) n)
                      (invalid_argument (codes "--duration 값이 너무 큽니다")))
                    _ (λ _. Keeps-ok p refl)))
                (Keeps-if p (equal option (codes "--status-interval"))
                  (Keeps-bind p (parse_unsigned u64_max value option) _ (λ n.
                    Keeps-bind p
                      (throw_if (n == 0 || ltb seconds_in_milliseconds n)
                        (invalid_argument (codes "--status-interval 값은 1 이상의 초여야 합니다")))
                      _ (λ _. Keeps-ok p refl)))
                  (Keeps-if p (equal option (codes "--offset-minutes"))
                    (Keeps-bind p _ _ (λ _. Keeps-ok p refl))
                    (Keeps-if p (equal option (codes "--from"))
                      (Keeps-bind p _ _ (λ _. Keeps-ok p refl))
                      (Keeps-if p (equal option (codes "--to"))
                        (Keeps-bind p _ _ (λ _. Keeps-ok p refl))
                        (Keeps-throws p
                          (invalid_argument (codes "알 수 없는 옵션: " ++ option)))))))))))))

set_value-mode : (option value : Bytes) (p : Parsing) → Keeps p (set_value option value p)
unfolding set_value mode_of
set_value-mode option value p = by_endpoint (set_endpoint option value p.options.config.endpoint)
  where
    by_endpoint :
        (r : Option (Result EndpointConfig))
        → Keeps p (elim r as (λ _. Result Parsing) [
          | some made ↦ made >>= λ e. ok (with_endpoint p e)
          | none ↦ set_run option value p
        ])
    by_endpoint (some made) = Keeps-bind p made _ (λ e. Keeps-ok p refl)
    by_endpoint none = set_run-mode option value p

parse_options-mode :
    (arguments : List Bytes) (p q : Parsing)
    → parse_options arguments p ≡ ok q
    → mode_of q ≡ mode_of p
unfolding parse_options
parse_options-mode [] p q h = ground arith
parse_options-mode (option ∷ []) p q h = ground (arith, set_flag-mode option p q)
parse_options-mode (option ∷ value ∷ arguments) p q h =
    by_flag (set_flag option p) refl h (λ r. parse_options-mode (value ∷ arguments) r q)
      (λ r. parse_options-mode arguments r q)
  where
    by_flag :
        (flag : Option Parsing)
        → set_flag option p ≡ flag
        → (elim flag as (λ _. Result Parsing) [
          | some r ↦ parse_options (value ∷ arguments) r
          | none ↦ set_value option value p >>= λ r. parse_options arguments r
        ])
          ≡ ok q
        → ((r : Parsing) → parse_options (value ∷ arguments) r ≡ ok q → mode_of q ≡ mode_of r)
        → ((r : Parsing) → parse_options arguments r ≡ ok q → mode_of q ≡ mode_of r)
        → mode_of q ≡ mode_of p
    by_flag (some r) e k after_flag after_value = after_flag r k ∙ set_flag-mode option p r e
    by_flag none e k after_flag after_value =
        let (r, made, later) = >>=-eq-ok (set_value option value p) _ k in
        after_value r later ∙ set_value-mode option value p r made

run_options-AreConsistent :
    (command : CliCommand) (arguments : List Bytes) (o : CliOptions)
    → (parse_options arguments (start_parsing command) >>= finish) ≡ ok o
    → AreConsistent o
unfolding mode_of
run_options-AreConsistent command arguments o h =
    let (q, read, later) = >>=-eq-ok (parse_options arguments (start_parsing command)) finish h in
    finish-AreConsistent q o (parse_options-mode arguments (start_parsing command) q read) later

default-AreConsistent : AreConsistent default_options
unfolding valid_ipv4 is_digit
default-AreConsistent = record {
  chosen = inl refl;
  listed = inl refl;
  addresses = (refl, refl);
  packing = inl refl;
  dates = inl refl;
}

-- If arguments are accepted, then exactly one of `--all` and `--sample-id` was given to `run`, and
-- none of them to `list`; `valid_ipv4` holds of both addresses, packing goes with UDP only, and a
-- range of dates is in order.
pub parse_arguments-AreConsistent :
    (arguments : List Bytes) (o : CliOptions) → parse_arguments arguments ≡ ok o → AreConsistent o
unfolding parse_arguments
parse_arguments-AreConsistent [] o h = subst AreConsistent (ok-injective h) default-AreConsistent
parse_arguments-AreConsistent (command ∷ arguments) o h = by_command (lowercase command) h
  where
    by_command : (c : Bytes) → parse_command c arguments ≡ ok o → AreConsistent o
    by_command c k =
        unfold parse_command in
        elim (if-cases (equals_any c (words "--help -h help")) k) [
          | inl (_, e) ↦ subst AreConsistent (ok-injective e) default-AreConsistent
          | inr (_, e) ↦ elim (if-cases (equal c (codes "list")) e) [
            | inl (_, e') ↦ run_options-AreConsistent list arguments o e'
            | inr (_, e') ↦ elim (if-cases (equal c (codes "run")) e') [
              | inl (_, e'') ↦ run_options-AreConsistent run arguments o e''
              | inr (_, e'') ↦ cc
            ]
          ]
        ]
