-- ===== src/Cli/Offsets.antt =====
-- An offset in minutes, as days, hours and minutes.
use log_generator.Cli.{offset_of_minutes, magnitude, is_negative}
use log_generator.Domain.{TimeOffset, offset_value}
use log_generator.Prelude.Int.{
  ℤ, pos, negsuc, ◌+ℤ◌, ◌*ℤ◌, eq_of_parts, scale_parts, +ℤ_parts, -ℤ_parts, pos_part, neg_part,
}
use log_generator.Prelude.Result.{ok}
use log_generator.Prelude.{ℕ, suc, ◌+◌, ◌*◌, ◌/◌, ◌%◌, ◌≡◌, arith}

parts_of : ℤ → TimeOffset
parts_of minutes = record {
  negative = is_negative minutes;
  days = pos (magnitude minutes / 1440);
  hours = pos (magnitude minutes % 1440 / 60);
  minutes = pos (magnitude minutes % 60);
}

offset_of_minutes-ok :
    (minutes : ℤ) (t : TimeOffset) → offset_of_minutes minutes ≡ ok t → t ≡ parts_of minutes
unfolding offset_of_minutes parts_of
offset_of_minutes-ok minutes t h = ground arith

-- The days, hours and minutes of a number of minutes.
whole : (n : ℕ) → n / 1440 * 86400 + n % 1440 / 60 * 3600 + n % 60 * 60 ≡ n * 60
whole n = omega arith

abbrev seconds : ℕ → ℕ → ℕ → ℤ
seconds d h m = pos d *ℤ pos 86400 +ℤ pos h *ℤ pos 3600 +ℤ pos m *ℤ pos 60

seconds_parts :
    (d h m : ℕ)
    → pos_part (seconds d h m) ≡ neg_part (seconds d h m) + (d * 86400 + h * 3600 + m * 60)
seconds_parts d h m = omega (
  arith,
  scale_parts (pos d) 86400,
  scale_parts (pos h) 3600,
  scale_parts (pos m) 60,
  +ℤ_parts (pos d *ℤ pos 86400) (pos h *ℤ pos 3600),
  +ℤ_parts (pos d *ℤ pos 86400 +ℤ pos h *ℤ pos 3600) (pos m *ℤ pos 60),
)

value_parts :
    (m : ℤ)
    → pos_part (offset_value (parts_of m)) + neg_part (m *ℤ pos 60)
      ≡ pos_part (m *ℤ pos 60) + neg_part (offset_value (parts_of m))
unfolding parts_of offset_value
value_parts (pos n) =
    omega
      (arith, whole n, scale_parts (pos n) 60, seconds_parts (n / 1440) (n % 1440 / 60) (n % 60))
value_parts (negsuc n) = omega (
  arith,
  whole (suc n),
  scale_parts (negsuc n) 60,
  seconds_parts (suc n / 1440) (suc n % 1440 / 60) (suc n % 60),
  -ℤ_parts (pos 0) (seconds (suc n / 1440) (suc n % 1440 / 60) (suc n % 60)),
)

-- If an offset of some minutes is accepted, its days, hours and minutes together are so many minutes,
-- in seconds, with the sign.
pub offset_value-offset_of_minutes :
    (minutes : ℤ) (t : TimeOffset)
    → offset_of_minutes minutes ≡ ok t
    → offset_value t ≡ minutes *ℤ pos 60
offset_value-offset_of_minutes minutes t h =
    rw (offset_of_minutes-ok minutes t h) (eq_of_parts _ _ (value_parts minutes))
