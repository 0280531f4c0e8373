-- ===== src/Tests/Inputs.antt =====
-- The catalog, the cache, the anonymizer and the command line on concrete inputs.
use log_generator.Anonymizer.{find_replacements, replace_sensitive_fields}
use log_generator.Anonymizer.Order.{find_replacements-AreOrdered, AreOrdered}
use log_generator.Cache.Entries.{publish-finds, publish-exceeds}
use log_generator.Cache.Keys.{cache_key-ambiguous}
use log_generator.Cache.{LogPreparationCache, publish, has_key, find, cache_key, maximum_entries}
use log_generator.Catalog.Ids.{next_id-new}
use log_generator.Catalog.{member, valid_sample_id, validate_ids, next_id}
use log_generator.Cli.Accepted.{parse_arguments-AreConsistent, AreConsistent}
use log_generator.Cli.Offsets.{offset_value-offset_of_minutes}
use log_generator.Cli.Values.{valid_ipv4, parse_date, parse_unsigned}
use log_generator.Cli.{
  CliOptions, run, default_options, offset_of_minutes, parse_arguments, parse_command,
  parse_options, set_flag, set_value, check_options, finish, finish_timestamps,
}
use log_generator.Cli.Run.{
  run_config, choose_templates, select_templates, without, ids, Reading, watch, watch-failure,
  run_config-member,
}
use log_generator.Domain.{GeneratorConfig, running, failed, LogTemplate, TimeOffset, offset_value}
use log_generator.Prelude.Decimal.{parse_u64, all_digits, to_string, value_onto}
use log_generator.Prelude.Int.{pos, negsuc, ◌*ℤ◌, ◌-ℤ◌}
use log_generator.Prelude.Result.{ok}
use log_generator.Prelude.{
  ℕ, zero, suc, ◌+◌, none, false, ◌≤◌, ◌≡◌, ◌≢◌, refl, true, List, [], ◌∷◌, some, Bytes, codes,
  equal, is_digit, to_lower, length, All, arith, starts_with, ends_with, contains,
}
use log_generator.Privacy.Markers.{
  classify_field-AreLike, escape_unsupported_controls-IsSupported, IsSupported,
}
use log_generator.Privacy.{
  classify_field, normalize_field, escape_unsupported_controls, equals_any, no_token, mac_address,
  secret, address, contains_any,
}
use log_generator.Tests.Control.{one_template}

classify_field-AreLike_example :
    (classify_field (codes "User-ID") ≡ classify_field (codes "user.id"))
    × (classify_field (normalize_field (codes "User-ID")) ≡ classify_field (codes "user.id"))
classify_field-AreLike_example =
    classify_field-AreLike (codes "User-ID") (codes "user.id") (ground arith)

escape_unsupported_controls-IsSupported_example :
    let text : Bytes = b'a' ∷ 7 ∷ b'\n' ∷ 27 ∷ [] in
    All IsSupported (escape_unsupported_controls text)
    × (escape_unsupported_controls (escape_unsupported_controls text)
        ≡ escape_unsupported_controls text)
escape_unsupported_controls-IsSupported_example =
    escape_unsupported_controls-IsSupported (b'a' ∷ 7 ∷ b'\n' ∷ 27 ∷ [])

abbrev two_items : List LogTemplate
two_items = record one_template { id = codes "0007" } ∷ record one_template { id = codes "12" } ∷ []

next_id_test : next_id two_items ≡ ok (codes "0013")
unfolding next_id validate_ids valid_sample_id parse_u64 all_digits is_digit to_string value_onto
    equal
next_id_test = refl

next_id-new_example :
    (valid_sample_id (codes "0013") ≡ true)
    × (4 ≤ length (codes "0013"))
    × All (λ item. item.id ≢ codes "0013") two_items
next_id-new_example = next_id-new two_items (codes "0013") next_id_test

abbrev empty_cache : LogPreparationCache Bytes
empty_cache = record { entries = []; compilation_count = 0 }

cache_key-ambiguous_example :
    cache_key (record one_template { test_case = (codes "A", codes "B" ∷ codes "x" ∷ []) ∷ [] })
    ≡ cache_key
        (record one_template { test_case = (codes "A", []) ∷ (codes "B", codes "x" ∷ []) ∷ [] })
cache_key-ambiguous_example =
    cache_key-ambiguous one_template (codes "A") (codes "B") [] (codes "x" ∷ []) []

abbrev arguments : List Bytes
arguments = codes "RUN" ∷ codes "--all" ∷ codes "--eps" ∷ codes "5" ∷ []

abbrev five_eps : CliOptions
five_eps = record default_options {
  command = run;
  config = record default_options.config { target_eps = 5 };
  all_samples = true;
}

arguments_test : parse_arguments arguments ≡ ok five_eps
unfolding parse_arguments parse_options set_flag set_value finish finish_timestamps parse_unsigned
    to_lower equal equals_any valid_ipv4 parse_u64 all_digits is_digit check_options parse_command
    offset_of_minutes
arguments_test = refl

parse_arguments-AreConsistent_example : AreConsistent five_eps
parse_arguments-AreConsistent_example =
    parse_arguments-AreConsistent arguments five_eps arguments_test

-- An octet of minus zero passes.
minus_zero_test : valid_ipv4 (codes "10.0.0.-0") ≡ true
unfolding valid_ipv4 is_digit
minus_zero_test = refl

leap_day_test : parse_date (codes "2024-02-29") [] ≡ ok (pos 19782)
unfolding parse_date is_digit equal ◌-ℤ◌
leap_day_test = refl

abbrev ninety_minutes : TimeOffset
ninety_minutes = record { negative = true; days = pos 0; hours = pos 1; minutes = pos 30 }

ninety_minutes_test : offset_of_minutes (negsuc 89) ≡ ok ninety_minutes
unfolding offset_of_minutes
ninety_minutes_test = refl

offset_value-offset_of_minutes_example : offset_value ninety_minutes ≡ negsuc 89 *ℤ pos 60
offset_value-offset_of_minutes_example =
    offset_value-offset_of_minutes (negsuc 89) ninety_minutes ninety_minutes_test

abbrev chosen_options : CliOptions
chosen_options = record default_options { command = run; sample_ids = codes "12" ∷ [] }

abbrev chosen_config : GeneratorConfig
chosen_config = record chosen_options.config {
  templates = record one_template { id = codes "12" } ∷ [];
}

chosen_test : run_config chosen_options two_items ≡ ok chosen_config
unfolding run_config choose_templates select_templates without member equal
chosen_test = refl

asked_test : member (codes "12") chosen_options.sample_ids ≡ true
unfolding member equal
asked_test = refl

run_config-member_example : member (codes "12") (ids chosen_config.templates) ≡ true
run_config-member_example =
    run_config-member chosen_options two_items chosen_config (codes "12") refl chosen_test
      asked_test

abbrev live : Reading
live = record { state = running; status_message = []; now = 9; signal = true }

abbrev broken : Reading
broken = record { state = failed; status_message = []; now = 10; signal = false }

watch-failure_example : watch 0 5 false (live ∷ broken ∷ []) ≡ some 1
watch-failure_example = watch-failure 0 5 false (live ∷ []) [] broken ((refl, refl), tt) refl

abbrev login_line : Bytes
login_line = codes "user_id=kim, \"password\": \"a, b\" path=/x {email: {{EMAIL}}}"

login_line-short : length login_line ≤ 80
login_line-short = omega arith

replace_sensitive_fields_test :
    replace_sensitive_fields login_line
    ≡ codes
        "user_id={{USER_ID}}, \"password\": \"{{SECRET}}\" path={{FILE_PATH}} {email: {{EMAIL}}}"
unfolding replace_sensitive_fields equal classify_field equals_any is_digit to_lower starts_with
    ends_with
replace_sensitive_fields_test = refl

classify_field_test :
    (classify_field (codes "Src-IP") ≡ no_token)
    × (classify_field (codes "MAC.src") ≡ mac_address)
    × (classify_field (codes "old_password_hash") ≡ secret)
    × (classify_field (codes "proxy_addr") ≡ address)
    × (classify_field (codes "mail") ≡ no_token)
unfolding classify_field equals_any contains_any equal starts_with ends_with contains to_lower
classify_field_test = (refl, refl, refl, refl, refl)

find_replacements-AreOrdered_example :
    (find_replacements 80 login_line 0 ≡ find_replacements (length login_line) login_line 0)
    × AreOrdered login_line 0 (find_replacements 80 login_line 0)
find_replacements-AreOrdered_example = find_replacements-AreOrdered 80 login_line login_line-short

-- Another caller was faster with the tokenized key `t`.
abbrev raced_cache : LogPreparationCache Bytes
raced_cache = record { entries = (codes "t", codes "y") ∷ []; compilation_count = 1 }

publish-finds_example :
    let r =
      publish
        (λ _. 0)
        (λ item. item)
        (λ item. item.sample)
        (codes "o")
        (codes "t")
        (codes "x")
        raced_cache in
    (find (codes "o") r.1.entries ≡ some r.0)
    × (length r.1.entries ≤ maximum_entries + 1)
    × (find (codes "t") raced_cache.entries ≡ none → length r.1.entries ≤ maximum_entries)
publish-finds_example =
    publish-finds (λ _. 0) (λ item. item) (λ item. item.sample) (codes "o") (codes "t") (codes "x")
      raced_cache (omega arith)

numbered : ℕ → List (Bytes × Bytes)
numbered zero = []
numbered (suc n) = (b'k' ∷ n ∷ [], codes "z") ∷ numbered n

-- The same with a full cache.
abbrev full_cache : LogPreparationCache Bytes
full_cache = record { entries = (codes "t", codes "y") ∷ numbered 511; compilation_count = 512 }

full_cache-length : length full_cache.entries ≡ maximum_entries
unfolding numbered
full_cache-length = refl

publish-exceeds_example :
    length
      (publish
        (λ _. 0)
        (λ item. item)
        (λ item. item.sample)
        (codes "o")
        (codes "t")
        (codes "x")
        full_cache).1.entries
    ≡ 513
publish-exceeds_example =
    publish-exceeds (λ _. 0) (λ item. item) (λ item. item.sample) (codes "o") (codes "t")
      (codes "x") (codes "y") full_cache full_cache-length found absent
  where
    found : find (codes "t") full_cache.entries ≡ some (codes "y")
    found = unfold find in unfold equal in refl

    absent : has_key (codes "o") full_cache.entries ≡ false
    absent = unfold has_key in unfold equal in unfold numbered in refl
