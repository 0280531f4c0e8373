-- ===== src/Cli/Values.antt =====
-- src/presentation/cli_app.cpp: the texts of numbers, dates and addresses.
use log_generator.Prelude.Decimal.{parse_u64, value_onto, all_digits}
use log_generator.Prelude.Int.{ℤ, pos, negsuc, ◌-ℤ◌}
use log_generator.Prelude.Result.{Result, ok, throws, invalid_argument}
use log_generator.Prelude.{
  ℕ, zero, suc, ◌+◌, ◌-◌, ◌*◌, ◌/◌, ◌%◌, ◌^◌, Bool, true, false, not, ◌&&◌, ◌||◌, List, [], ◌∷◌,
  ◌++◌, map, Option, none, some, ltb, leb, ◌==◌, if◌then◌else◌, Bytes, codes, equal, to_lower,
  is_empty, length, take, drop,
}

abbrev pub lowercase : Bytes → Bytes
lowercase = map to_lower

-- The loop of `std::from_chars` into a signed type of which `limit` is one more than the maximum;
-- the whole text is read.
unfoldable pub parse_int : ℕ → Bytes → Option ℤ
unfolding all_digits value_onto
parse_int limit [] = none
parse_int limit (c ∷ cs) =
    let n = value_onto 0 cs in
    let negative : Option ℤ =
      if is_empty cs || not (all_digits cs) || ltb limit n
      then none
      else if n == 0
      then some (pos 0)
      else some (negsuc (n - 1)) in
    let m = value_onto 0 (c ∷ cs) in
    let positive = if all_digits (c ∷ cs) && ltb m limit then some (pos m) else none in
    if c == b'-' then negative else positive

-- `maximum` is the greatest value of the type.
unfoldable pub parse_unsigned : ℕ → Bytes → Bytes → Result ℕ
unfolding parse_u64
parse_unsigned maximum text option =
    let wrong = invalid_argument (option ++ (codes " 값이 올바른 양의 정수가 아닙니다: " ++ text)) in
    elim (parse_u64 text) [
      | none ↦ throws wrong
      | some parsed ↦ if ltb maximum parsed then throws wrong else ok parsed
    ]

unfoldable pub parse_signed : Bytes → Bytes → Result ℤ
unfolding parse_int
parse_signed text option = elim (parse_int (2 ^ 63) text) [
  | none ↦ throws (invalid_argument (option ++ (codes " 값이 올바른 정수가 아닙니다: " ++ text)))
  | some parsed ↦ ok parsed
]

-- The calendar: a year is counted from 10000 years before the year 0, which is 25 cycles of the
-- calendar.
abbrev is_leap : ℕ → Bool
is_leap y = y % 4 == 0 && (not (y % 100 == 0) || y % 400 == 0)

abbrev days_in_month : Bool → ℕ → ℕ
days_in_month leap m =
    if m == 2
    then (if leap then 29 else 28)
    else if m == 4 || m == 6 || m == 9 || m == 11
    then 30
    else 31

days_before_month : Bool → ℕ → ℕ
days_before_month leap zero = 0
days_before_month leap (suc zero) = 0
days_before_month leap (suc (suc m)) = days_before_month leap (suc m) + days_in_month leap (suc m)

abbrev days_before_year : ℕ → ℕ
days_before_year y = 365 * y + (y + 3) / 4 - (y + 99) / 100 + (y + 399) / 400

abbrev year_shift : ℕ
year_shift = 10000

-- `date.ok()`.
abbrev is_date : ℕ → ℕ → ℕ → Bool
is_date y m d = leb 1 m && leb m 12 && leb 1 d && leb d (days_in_month (is_leap y) m)

-- `sys_days{date}`.
unfoldable pub sys_days : ℕ → ℕ → ℕ → ℤ
unfolding days_before_month
sys_days y m d =
    pos (days_before_year y + days_before_month (is_leap y) m + (d - 1)) -ℤ pos (719528 + 3652425)

shifted : ℤ → ℕ
shifted (pos n) = year_shift + n
shifted (negsuc n) = year_shift - (n + 1)

date_of : Bytes → Option ℤ → Option ℕ → Option ℕ → Result ℤ
unfolding sys_days shifted
date_of option (some y) (some m) (some d) =
    if is_date (shifted y) m d
    then ok (sys_days (shifted y) m d)
    else throws (invalid_argument (option ++ codes " 값에 유효하지 않은 날짜가 있습니다"))
date_of option _ _ _ = throws (invalid_argument (option ++ codes " 값에 유효하지 않은 날짜가 있습니다"))

dash_at : ℕ → Bytes → Bool
dash_at i text = equal (take 1 (drop i text)) (codes "-")

unfoldable pub parse_date : Bytes → Bytes → Result ℤ
unfolding dash_at date_of parse_int parse_u64
parse_date text option =
    let parsed =
      date_of option (parse_int (2 ^ 31) (take 4 text)) (parse_u64 (take 2 (drop 5 text)))
        (parse_u64 (take 2 (drop 8 text))) in
    if not (length text == 10) || not (dash_at 4 text) || not (dash_at 7 text)
    then throws (invalid_argument (option ++ codes " 값은 yyyy-MM-dd 형식이어야 합니다"))
    else parsed

-- The parts of a text between its dots.
split_dots : Bytes → Bytes → List Bytes
split_dots part [] = part ∷ []
split_dots part (c ∷ cs) =
    let next = part ∷ split_dots [] cs in
    let same = split_dots (part ++ c ∷ []) cs in if c == b'.' then next else same

is_byte : Option ℤ → Bool
is_byte none = false
is_byte (some (negsuc n)) = false
is_byte (some (pos n)) = leb n 255

valid_part : Bytes → Bool
unfolding is_byte parse_int
valid_part part = not (is_empty part) && leb (length part) 3 && is_byte (parse_int (2 ^ 31) part)

all_valid : List Bytes → Bool
unfolding valid_part
all_valid [] = true
all_valid (part ∷ parts) = valid_part part && all_valid parts

unfoldable pub valid_ipv4 : Bytes → Bool
unfolding all_valid split_dots
valid_ipv4 value = all_valid (split_dots [] value) && length (split_dots [] value) == 4
