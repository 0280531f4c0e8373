-- ===== src/Renderer/Clock.antt =====
-- Instants and calendar fields: `convert_utc_time`, `make_time`, `append_fraction` and
-- `append_timestamp` of src/application/log_renderer.cpp. An instant of the system clock is an
-- integer of nanoseconds since the epoch. `std::localtime` is an argument.
use log_generator.Prelude.Decimal.{to_string}
use log_generator.Prelude.Int.{ℤ, pos, negsuc, ◌+ℤ◌, ◌-ℤ◌, ◌*ℤ◌}
use log_generator.Prelude.{
  ℕ, suc, ◌+◌, ◌-◌, ◌*◌, ◌/◌, ◌%◌, Bool, not, List, [], ◌∷◌, ◌++◌, none, some, ◌==◌, ltb, leb,
  Bytes, codes, words, is_empty, length, take, replicate, get_elem?, if◌then◌else◌,
}
use log_generator.Renderer.Styles.{TimestampStyle, TimestampToken, weekdays}

-- `std::floor` of an integer by a positive one, and what remains.
abbrev pub floor_div : ℤ → ℕ → ℤ
floor_div (pos n) m = pos (n / m)
floor_div (negsuc n) m = negsuc (n / m)

abbrev pub floor_mod : ℤ → ℕ → ℕ
floor_mod (pos n) m = n % m
floor_mod (negsuc n) m = m - 1 - n % m

-- `duration_cast<seconds>`, towards zero.
abbrev pub whole_seconds : ℤ → ℤ
whole_seconds (pos n) = pos (n / 1000000000)
whole_seconds (negsuc n) = pos 0 -ℤ pos (suc n / 1000000000)

-- `std::tm`, with the whole year and the month from 0.
pub record Tm : Type 0 where
  pub tm_year : ℤ
  pub tm_mon : ℕ
  pub tm_mday : ℕ
  pub tm_hour : ℕ
  pub tm_min : ℕ
  pub tm_sec : ℕ
  pub tm_wday : ℕ

-- `year_month_day{sys_days}`: the civil date of a day since the epoch, by eras of 400 years that
-- begin in March.
unfoldable pub civil_date : ℤ → ℤ × ℕ × ℕ
civil_date day =
    let shifted = day +ℤ pos 719468 in
    let doe = floor_mod shifted 146097 in
    let yoe = (doe - doe / 1460 + doe / 36524 - doe / 146096) / 365 in
    let doy = doe - (365 * yoe + yoe / 4 - yoe / 100) in
    let mp = (5 * doy + 2) / 153 in
    let month = if ltb mp 10 then mp + 3 else mp - 9 in
    (
      floor_div shifted 146097 *ℤ pos 400 +ℤ pos (if leb month 2 then yoe + 1 else yoe),
      month,
      doy - (153 * mp + 2) / 5 + 1,
    )

-- The fields of a second since the epoch.
unfoldable pub utc_fields : ℤ → Tm
unfolding civil_date
utc_fields second =
    let day = floor_div second 86400 in
    let rest = floor_mod second 86400 in
    let (year, month, mday) = civil_date day in
    record {
      tm_year = year;
      tm_mon = month - 1;
      tm_mday = mday;
      tm_hour = rest / 3600;
      tm_min = rest / 60 % 60;
      tm_sec = rest % 60;
      tm_wday = floor_mod (day +ℤ pos 4) 7;
    }

unfoldable pub convert_utc_time : ℤ → Tm
unfolding utc_fields
convert_utc_time point = utc_fields (floor_div point 1000000000)

abbrev pub minute_ns : ℕ
minute_ns = 60 * 1000000000

unfoldable pub make_time : (ℤ → Tm) → ℤ → TimestampToken → Bool → Tm
unfolding convert_utc_time
make_time localtime point token calendar_time =
    let moved = point +ℤ token.zone_offset_minutes *ℤ pos minute_ns in
    if calendar_time
    then convert_utc_time point
    else if not (is_empty token.zone_suffix)
    then convert_utc_time moved
    else localtime (whole_seconds point)

-- `%0wd` of a number that is not negative.
abbrev pub pad : ℕ → ℕ → Bytes
pad w n = replicate (w - length (to_string n)) b'0' ++ to_string n

-- `%04d`, where a sign takes a place.
abbrev pub pad_year : ℤ → Bytes
pad_year (pos n) = pad 4 n
pad_year (negsuc n) = b'-' ∷ pad 3 (suc n)

unfoldable pub fraction : ℤ → ℕ → Bytes
unfolding to_string
fraction point digits =
    if digits == 0 then [] else take (digits + 1) (b'.' ∷ pad 9 (floor_mod point 1000000000))

abbrev pub months : List Bytes
months = words "Jan Feb Mar Apr May Jun Jul Aug Sep Oct Nov Dec"

abbrev pub name_at : ℕ → List Bytes → Bytes
name_at i names = elim (get_elem? names i) [ none ↦ [] | some name ↦ name ]

abbrev pub two : ℕ → Bytes
two n = pad 2 n

abbrev pub hour_text : TimestampToken → Tm → Bytes
hour_text token t = if token.hour_width == 1 then to_string t.tm_hour else two t.tm_hour

-- With a byte between the parts.
abbrev pub join : ℕ → List Bytes → Bytes
join separator [] = []
join separator (x ∷ []) = x
join separator (x ∷ y ∷ more) = x ++ (separator ∷ join separator (y ∷ more))

abbrev pub clock_text : Tm → Bytes
clock_text t = join b':' (two t.tm_hour ∷ two t.tm_min ∷ two t.tm_sec ∷ [])

abbrev pub date : TimestampToken → Tm → Bytes
date token t =
    join token.date_separator (pad_year t.tm_year ∷ two (t.tm_mon + 1) ∷ two t.tm_mday ∷ [])

-- What `snprintf` leaves of a text in a buffer of 64 bytes, where `%s` ends at a NUL.
unfoldable pub until_nul : Bytes → Bytes
until_nul [] = []
until_nul (c ∷ cs) = let rest = c ∷ until_nul cs in if c == 0 then [] else rest

-- The text of a style. A separator is taken not to be a NUL.
unfoldable pub style_text : TimestampStyle → TimestampToken → Tm → Bytes → Bytes
unfolding to_string until_nul
style_text TimestampStyle.iso8601 token t fraction =
    date token t
    ++ (token.date_time_separator
        ∷ (join b':' (hour_text token t ∷ two t.tm_min ∷ two t.tm_sec ∷ [])
            ++ (fraction ++ token.zone_suffix)))
style_text TimestampStyle.year_first token t fraction =
    date token t
    ++ (token.date_time_separator
        ∷ (join b':' (hour_text token t ∷ two t.tm_min ∷ two t.tm_sec ∷ [])
            ++ (fraction ++ token.zone_suffix)))
style_text TimestampStyle.syslog_with_year token t fraction =
    join b' ' (name_at t.tm_mon months ∷ two t.tm_mday ∷ clock_text t ∷ pad_year t.tm_year ∷ [])
style_text TimestampStyle.syslog_without_year token t fraction =
    join b' ' (name_at t.tm_mon months ∷ two t.tm_mday ∷ clock_text t ∷ [])
style_text TimestampStyle.month_first_gmt token t fraction =
    join b' ' (
      name_at t.tm_mon months
      ∷ two t.tm_mday
      ∷ pad_year t.tm_year
      ∷ clock_text t
      ∷ codes "GMT"
      ∷ [])
style_text TimestampStyle.apache token t fraction = take 63 (
    join b'/' (two t.tm_mday ∷ name_at t.tm_mon months ∷ pad_year t.tm_year ∷ [])
    ++ (b':' ∷ (clock_text t ++ (b' ' ∷ until_nul token.zone_suffix))))
style_text TimestampStyle.compact token t fraction =
    pad_year t.tm_year
    ++ (two (t.tm_mon + 1) ++ (two t.tm_mday ++ (two t.tm_hour ++ (two t.tm_min ++ two t.tm_sec))))
style_text TimestampStyle.compact_with_t token t fraction =
    pad_year t.tm_year
    ++ (two (t.tm_mon + 1)
        ++ (two t.tm_mday
            ++ (b'T'
                ∷ (two t.tm_hour
                    ++ (two t.tm_min ++ (two t.tm_sec ++ (fraction ++ token.zone_suffix)))))))
style_text TimestampStyle.compact_date token t fraction =
    pad_year t.tm_year ++ (two (t.tm_mon + 1) ++ two t.tm_mday)
style_text TimestampStyle.compact_year_month token t fraction =
    pad_year t.tm_year ++ two (t.tm_mon + 1)
style_text TimestampStyle.compact_time token t fraction =
    two t.tm_hour ++ (two t.tm_min ++ two t.tm_sec)
style_text TimestampStyle.year_first_minute token t fraction =
    date token t ++ (token.date_time_separator ∷ join b':' (hour_text token t ∷ two t.tm_min ∷ []))
style_text TimestampStyle.month_day_year token t fraction =
    join b' ' (name_at t.tm_mon months ∷ two t.tm_mday ∷ pad_year t.tm_year ∷ clock_text t ∷ [])
    ++ (if is_empty token.zone_suffix then [] else b' ' ∷ token.zone_suffix)
style_text TimestampStyle.date_only token t fraction = date token t
style_text TimestampStyle.year_month token t fraction =
    join token.date_separator (pad_year t.tm_year ∷ two (t.tm_mon + 1) ∷ [])
style_text TimestampStyle.time_only token t fraction =
    join b':' (hour_text token t ∷ two t.tm_min ∷ two t.tm_sec ∷ []) ++ fraction

-- What `append_timestamp` appends.
unfoldable pub timestamp_text : (ℤ → Tm) → TimestampToken → ℤ → Bool → Bytes
unfolding make_time fraction style_text
timestamp_text localtime token point calendar_time =
    let t = make_time localtime point token calendar_time in
    (if token.has_weekday then name_at t.tm_wday weekdays ++ b' ' ∷ [] else [])
    ++ style_text token.style token t (fraction point token.fractional_digits)
