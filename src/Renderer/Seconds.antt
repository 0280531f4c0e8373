-- ===== src/Renderer/Seconds.antt =====
-- The text of a timestamp without a fraction depends on the second only.
use log_generator.Prelude.Int.{ℤ, pos, negsuc, ◌+ℤ◌, ◌*ℤ◌}
use log_generator.Prelude.{ℕ, ◌*◌, ◌/◌, ◌≡◌, refl, ap, Bool, not, is_empty, arith, if◌then◌else◌}
use log_generator.Renderer.Clock.{
  Tm, utc_fields, floor_div, whole_seconds, convert_utc_time, make_time, timestamp_text, minute_ns,
}
use log_generator.Renderer.Styles.{TimestampToken}

-- The beginning of a second.
abbrev pub beginning : ℕ → ℤ
beginning n = pos (n * 1000000000)

abbrev second_of : ℕ → ℕ
second_of m = m / 1000000000

pub whole_seconds-beginning : (n : ℕ) → whole_seconds (beginning n) ≡ pos n
whole_seconds-beginning n = ap pos (omega arith)

floor_div-moved :
    (m : ℕ) (z : ℤ)
    → floor_div (pos m +ℤ z *ℤ pos minute_ns) 1000000000
      ≡ floor_div (beginning (second_of m) +ℤ z *ℤ pos minute_ns) 1000000000
unfolding ◌+ℤ◌ ◌*ℤ◌
floor_div-moved m (pos k) = ground arith
floor_div-moved m (negsuc k) = ground arith

convert_utc_time-floor :
    (a b : ℤ)
    → floor_div a 1000000000 ≡ floor_div b 1000000000
    → convert_utc_time a ≡ convert_utc_time b
unfolding convert_utc_time
convert_utc_time-floor a b h = ap utc_fields h

make_time-second :
    (localtime : ℤ → Tm) (m : ℕ) (token : TimestampToken) (calendar_time : Bool)
    → make_time localtime (pos m) token calendar_time
      ≡ make_time localtime (beginning (second_of m)) token calendar_time
unfolding make_time
make_time-second localtime m token calendar_time =
    let plain = convert_utc_time-floor (pos m) (beginning (second_of m)) (ap pos (omega arith)) in
    let moved =
      convert_utc_time-floor (pos m +ℤ token.zone_offset_minutes *ℤ pos minute_ns)
        (beginning (second_of m) +ℤ token.zone_offset_minutes *ℤ pos minute_ns)
        (floor_div-moved m token.zone_offset_minutes) in
    let here : whole_seconds (pos m) ≡ whole_seconds (beginning (second_of m)) =
      ap pos (omega arith) in
    λ i.
      if calendar_time
      then plain i
      else if not (is_empty token.zone_suffix)
      then moved i
      else localtime (here i)

pub timestamp_text-second :
    (localtime : ℤ → Tm) (m : ℕ) (token : TimestampToken) (calendar_time : Bool)
    → token.fractional_digits ≡ 0
    → timestamp_text localtime token (pos m) calendar_time
      ≡ timestamp_text localtime token (beginning (m / 1000000000)) calendar_time
unfolding timestamp_text
timestamp_text-second localtime m token calendar_time none =
    rw (none, make_time-second localtime m token calendar_time) refl
