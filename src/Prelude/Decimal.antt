-- ===== src/Prelude/Decimal.antt =====
-- Decimal numerals: `std::to_string`, `std::to_chars`, and the value of a digit string.
use Prim.Native.Nat.{ℕ, zero, suc, ◌+◌, ◌-◌, ◌*◌, ◌/◌, ◌%◌, ◌^◌, ◌≤◌, ◌<◌}
use mathlib.Core.Path.{◌≡◌, refl, ap, ◌∙◌}
use mathlib.Core.Logic.{inl, inr}
use mathlib.Core.Bool.{Bool, true, not, ◌&&◌, ◌||◌}
use mathlib.Core.Option.{Option, none, some}
use mathlib.Core.List.{[], ◌∷◌, ◌++◌}
use native.Mathlib.Omega.{arith}
use log_generator.Prelude.Lists.{All, length, replicate, length-append, is_empty}
use log_generator.Prelude.Tests.{ltb, if◌then◌else◌, Bool-cases, tests}
use log_generator.Prelude.Text.{Bytes, is_digit}

print_loop : ℕ → ℕ → Bytes → Bytes
print_loop zero n acc = acc
print_loop (suc f) n acc =
    let shown = (b'0' + n % 10) ∷ acc in
    let rest = print_loop f (n / 10) shown in if ltb n 10 then shown else rest

-- A number below the fuel is printed in full.
unfoldable pub to_string : ℕ → Bytes
unfolding print_loop
to_string n = print_loop (suc n) n []

-- The value of a string of digits behind digits of value `acc`.
unfoldable pub value_onto : ℕ → Bytes → ℕ
value_onto acc [] = acc
value_onto acc (c ∷ cs) = value_onto (acc * 10 + (c - b'0')) cs

value_onto-print_loop :
    (f n : ℕ) (acc : Bytes) → n < f → value_onto 0 (print_loop f n acc) ≡ value_onto n acc
unfolding print_loop value_onto
value_onto-print_loop zero n acc h = elim h [ ]
value_onto-print_loop (suc f) n acc h = elim (Bool-cases (ltb n 10)) [
  | inl last ↦ rw last (ap (λ t. value_onto t acc) (one_digit n (omega tests)))
  | inr more ↦ rw more (
      value_onto-print_loop f (n / 10) _ (omega tests) ∙ ap (λ t. value_onto t acc) (split_digit n))
]
  where
    one_digit : (n : ℕ) → n < 10 → 0 * 10 + (48 + n % 10 - 48) ≡ n
    one_digit n l = omega arith

    split_digit : (n : ℕ) → n / 10 * 10 + (48 + n % 10 - 48) ≡ n
    split_digit n = omega arith

-- A printed number reads back as itself.
pub value_onto-to_string : (n : ℕ) → value_onto 0 (to_string n) ≡ n
unfolding to_string value_onto
value_onto-to_string n = value_onto-print_loop (suc n) n [] (omega arith)

abbrev pub Digits : Bytes → Type 0
Digits = All (λ c. is_digit c ≡ true)

print_loop-Digits : (f n : ℕ) (acc : Bytes) → Digits acc → Digits (print_loop f n acc)
unfolding print_loop
print_loop-Digits zero n acc h = h
print_loop-Digits (suc f) n acc h = elim (Bool-cases (ltb n 10)) [
  | inl last ↦ rw last (shown, h)
  | inr more ↦ rw more (print_loop-Digits f (n / 10) _ (shown, h))
]
  where
    shown : is_digit (48 + n % 10) ≡ true
    shown = unfold is_digit in ground arith

pub to_string-Digits : (n : ℕ) → Digits (to_string n)
unfolding to_string
to_string-Digits n = print_loop-Digits (suc n) n [] tt

-- A number with leading zeros, in four places or more.
abbrev pub pad4 : ℕ → Bytes
pad4 n = replicate (4 - length (to_string n)) b'0' ++ to_string n

value_onto-zeros : (k : ℕ) (ds : Bytes) → value_onto 0 (replicate k b'0' ++ ds) ≡ value_onto 0 ds
unfolding value_onto
value_onto-zeros zero ds = refl
value_onto-zeros (suc k) ds = value_onto-zeros k ds

Digits-zeros : (k : ℕ) (ds : Bytes) → Digits ds → Digits (replicate k b'0' ++ ds)
Digits-zeros zero ds h = h
Digits-zeros (suc k) ds h = (unfold is_digit in refl, Digits-zeros k ds h)

pub value_onto-pad4 : (n : ℕ) → value_onto 0 (pad4 n) ≡ n
value_onto-pad4 n =
    value_onto-zeros (4 - length (to_string n)) (to_string n) ∙ value_onto-to_string n

pub pad4-Digits : (n : ℕ) → Digits (pad4 n)
pad4-Digits n = Digits-zeros (4 - length (to_string n)) (to_string n) (to_string-Digits n)

length-replicate : (k c : ℕ) → length (replicate k c) ≡ k
length-replicate zero c = omega arith
length-replicate (suc k) c = omega (arith, length-replicate k c)

pub length-pad4 : (n : ℕ) → 4 ≤ length (pad4 n)
length-pad4 n = omega (
  arith,
  length-append (replicate (4 - length (to_string n)) b'0') (to_string n),
  length-replicate (4 - length (to_string n)) b'0',
)

unfoldable pub all_digits : Bytes → Bool
all_digits [] = true
all_digits (c ∷ cs) = is_digit c && all_digits cs

-- `std::from_chars` into 64 bits, with the test that it has read the whole text.
unfoldable pub parse_u64 : Bytes → Option ℕ
unfolding all_digits value_onto
parse_u64 text =
    if is_empty text || not (all_digits text)
    then none
    else if ltb (value_onto 0 text) (2 ^ 64)
    then some (value_onto 0 text)
    else none

pub all_digits-Digits : (ds : Bytes) → Digits ds → all_digits ds ≡ true
unfolding all_digits
all_digits-Digits [] h = refl
all_digits-Digits (d ∷ ds) h = ground (arith, h, all_digits-Digits ds h.1)
