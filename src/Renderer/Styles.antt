-- ===== src/Renderer/Styles.antt =====
-- Timestamp styles and tokens: src/application/models/log_template_analysis.hpp and the first part of
-- src/application/log_renderer.cpp.
use log_generator.Prelude.Int.{ℤ, pos, ◌+ℤ◌, ◌-ℤ◌, ◌*ℤ◌}
use log_generator.Prelude.Search.{find_if_from, find_last_if, byte_or, digit_run, substr}
use log_generator.Prelude.{
  ℕ, ◌+◌, ◌-◌, ◌≡◌, refl, min, Bool, false, not, ◌&&◌, ◌||◌, List, [], ◌∷◌, Option, none, some,
  ◌==◌, ltb, Bytes, codes, equal, words, length, drop, if◌then◌else◌,
}

pub data TimestampStyle : Type 0 where
  iso8601 year_first syslog_with_year syslog_without_year month_first_gmt apache compact
        compact_with_t compact_date compact_year_month compact_time year_first_minute month_day_year
        date_only year_month time_only :
      TimestampStyle

unfoldable pub timestamp_style_name : TimestampStyle → Bytes
timestamp_style_name iso8601 = codes "ISO 8601 / Year First"
timestamp_style_name year_first = codes "Year First"
timestamp_style_name syslog_with_year = codes "Syslog With Year"
timestamp_style_name syslog_without_year = codes "Syslog"
timestamp_style_name month_first_gmt = codes "Month First GMT"
timestamp_style_name apache = codes "Apache"
timestamp_style_name compact = codes "Compact yyyyMMddHHmmss"
timestamp_style_name compact_with_t = codes "Compact yyyyMMddTHHmmss"
timestamp_style_name compact_date = codes "Compact yyyyMMdd"
timestamp_style_name compact_year_month = codes "Compact yyyyMM"
timestamp_style_name compact_time = codes "Compact HHmmss"
timestamp_style_name year_first_minute = codes "Year First yyyy-MM-dd HH:mm"
timestamp_style_name month_day_year = codes "MMM dd yyyy HH:mm:ss"
timestamp_style_name date_only = codes "Separated Date"
timestamp_style_name year_month = codes "Year Month"
timestamp_style_name time_only = codes "Separated Time"

-- The place of a style in the enumeration.
abbrev pub style_index : TimestampStyle → ℕ
style_index iso8601 = 0
style_index year_first = 1
style_index syslog_with_year = 2
style_index syslog_without_year = 3
style_index month_first_gmt = 4
style_index apache = 5
style_index compact = 6
style_index compact_with_t = 7
style_index compact_date = 8
style_index compact_year_month = 9
style_index compact_time = 10
style_index year_first_minute = 11
style_index month_day_year = 12
style_index date_only = 13
style_index year_month = 14
style_index time_only = 15

abbrev pub is_style : TimestampStyle → TimestampStyle → Bool
is_style a b = style_index a == style_index b

abbrev pub timestamp_style_keys : List (TimestampStyle × Bytes)
timestamp_style_keys =
    (iso8601, codes "ISO8601")
    ∷ (year_first, codes "YEAR_FIRST")
    ∷ (syslog_with_year, codes "SYSLOG_YEAR")
    ∷ (syslog_without_year, codes "SYSLOG")
    ∷ (month_first_gmt, codes "MONTH_FIRST_GMT")
    ∷ (apache, codes "APACHE")
    ∷ (compact, codes "COMPACT")
    ∷ (compact_with_t, codes "COMPACT_T")
    ∷ (compact_date, codes "COMPACT_DATE")
    ∷ (compact_year_month, codes "COMPACT_MONTH")
    ∷ (compact_time, codes "COMPACT_TIME")
    ∷ (year_first_minute, codes "YEAR_FIRST_MINUTE")
    ∷ (month_day_year, codes "MONTH_DAY_YEAR")
    ∷ (date_only, codes "DATE")
    ∷ (year_month, codes "YEAR_MONTH")
    ∷ (time_only, codes "TIME")
    ∷ []

key_in : TimestampStyle → List (TimestampStyle × Bytes) → Bytes
key_in style [] = codes "UNKNOWN"
key_in style ((candidate, key) ∷ keys) =
    let later = key_in style keys in if is_style candidate style then key else later

unfoldable pub timestamp_style_key : TimestampStyle → Bytes
unfolding key_in
timestamp_style_key style = key_in style timestamp_style_keys

style_in : Bytes → List (TimestampStyle × Bytes) → Option TimestampStyle
style_in key [] = none
style_in key ((style, candidate) ∷ keys) =
    let later = style_in key keys in if equal candidate key then some style else later

unfoldable pub timestamp_style_from_key : Bytes → Option TimestampStyle
unfolding style_in
timestamp_style_from_key key = style_in key timestamp_style_keys

pub record TimestampToken : Type 0 where
  pub style : TimestampStyle
  pub date_separator : ℕ
  pub date_time_separator : ℕ
  pub fractional_digits : ℕ
  pub hour_width : ℕ
  pub zone_offset_minutes : ℤ
  pub has_weekday : Bool
  pub zone_suffix : Bytes

abbrev pub default_token : TimestampToken
default_token = record {
  style = iso8601;
  date_separator = b'-';
  date_time_separator = b'T';
  fractional_digits = 0;
  hour_width = 2;
  zone_offset_minutes = pos 0;
  has_weekday = false;
  zone_suffix = [];
}

-- A `char` as a number; it is signed.
abbrev pub char_value : ℕ → ℤ
char_value c = if ltb c 128 then pos c else pos c -ℤ pos 256

-- Two characters as a number.
unfoldable pub digit_pair : ℕ → Bytes → ℤ
digit_pair i text =
    (char_value (byte_or 0 i text) -ℤ pos b'0') *ℤ pos 10
    +ℤ (char_value (byte_or 0 (i + 1) text) -ℤ pos b'0')

unfoldable pub parse_zone_offset : Bytes → ℤ
unfolding digit_pair
parse_zone_offset suffix =
    let first = byte_or 0 0 suffix in
    let minute_index = if length suffix == 6 then 4 else 3 in
    let total = digit_pair 1 suffix *ℤ pos 60 +ℤ digit_pair minute_index suffix in
    if ltb (length suffix) 5 || not (first == b'+') && not (first == b'-')
    then pos 0
    else if first == b'-'
    then pos 0 -ℤ total
    else total

abbrev pub weekdays : List Bytes
weekdays = words "Sun Mon Tue Wed Thu Fri Sat"

one_of : Bytes → List Bytes → Bool
one_of text [] = false
one_of text (w ∷ ws) = equal text w || one_of text ws

-- The fields that hold in every style.
unfoldable pub plain_token : TimestampStyle → Bytes → TimestampToken
unfolding one_of
plain_token style value = record default_token {
  style = style;
  has_weekday =
      ltb 4 (length value) && byte_or 0 3 value == b' ' && one_of (substr 0 3 value) weekdays;
}

-- The digits behind the first dot at `from` or later, nine at most.
unfoldable pub with_fraction : ℕ → Bytes → TimestampToken → TimestampToken
unfolding find_if_from digit_run
with_fraction from value token = elim (find_if_from (λ c. c == b'.') from value) [
  | none ↦ token
  | some dot ↦ record token { fractional_digits = min 9 (digit_run (drop (dot + 1) value)) }
]

abbrev pub is_zone_start : ℕ → Bool
is_zone_start c = c == b'Z' || c == b'+' || c == b'-'

unfoldable pub with_zone : Option ℕ → Bytes → TimestampToken → TimestampToken
unfolding parse_zone_offset
with_zone none value token = token
with_zone (some zone_position) value token =
    let suffix = drop zone_position value in
    record token { zone_suffix = suffix; zone_offset_minutes = parse_zone_offset suffix }

abbrev pub hour_width_at : ℕ → Bytes → ℕ
hour_width_at i value = if byte_or 0 i value == b':' then 1 else 2

unfoldable pub make_token : TimestampStyle → Bytes → TimestampToken
unfolding plain_token with_fraction with_zone find_if_from find_last_if
make_token iso8601 value =
    let token = record (plain_token iso8601 value) {
      date_separator = byte_or b'-' 4 value;
      date_time_separator = byte_or b'T' 10 value;
      hour_width = hour_width_at 12 value;
    } in
    with_zone (find_if_from is_zone_start 11 value) value (with_fraction 11 value token)
make_token compact_with_t value =
    with_zone (find_if_from is_zone_start 15 value) value
      (with_fraction 0 value (plain_token compact_with_t value))
make_token apache value =
    with_zone (find_last_if (λ c. c == b'+' || c == b'-') value) value (plain_token apache value)
make_token month_first_gmt value = record (plain_token month_first_gmt value) {
  zone_suffix = codes "GMT";
}
make_token month_day_year value =
    let token = plain_token month_day_year value in
    elim (find_last_if (λ c. c == b' ') value) [
      | none ↦ token
      | some zone_position ↦
          let suffix = drop (zone_position + 1) value in
          if equal suffix (codes "GMT") || equal suffix (codes "UTC")
          then record token { zone_suffix = suffix }
          else token
    ]
make_token date_only value = record (plain_token date_only value) {
  date_separator = byte_or b'-' 4 value;
}
make_token year_month value = record (plain_token year_month value) {
  date_separator = byte_or b'-' 4 value;
}
make_token year_first_minute value = record (plain_token year_first_minute value) {
  date_separator = byte_or b'-' 4 value;
  date_time_separator = byte_or b' ' 10 value;
  hour_width = hour_width_at 12 value;
}
make_token time_only value =
    let token = record (plain_token time_only value) { hour_width = hour_width_at 1 value } in
    elim (find_if_from (λ c. c == b'.') 0 value) [
      | none ↦ token
      | some dot ↦ record token { fractional_digits = min 9 (length value - dot - 1) }
    ]
make_token style value = plain_token style value

pub timestamp_style_from_key-timestamp_style_key :
    (style : TimestampStyle) → timestamp_style_from_key (timestamp_style_key style) ≡ some style
unfolding timestamp_style_from_key timestamp_style_key equal
timestamp_style_from_key-timestamp_style_key iso8601 = refl
timestamp_style_from_key-timestamp_style_key _ = refl
