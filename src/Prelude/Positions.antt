-- ===== src/Prelude/Positions.antt =====
-- Where the searches of a byte string stop.
use log_generator.Prelude.Lists.{length, take, drop, All, take-append-drop}
use log_generator.Prelude.Search.{find_if, find_text, occurrences, substr}
use log_generator.Prelude.Tests.{if-holds, if-cases}
use log_generator.Prelude.Text.{Bytes, starts_with}
use Prim.Native.Nat.{ℕ, zero, suc, ◌+◌, ◌-◌, ◌≤◌, ◌<◌}
use mathlib.Core.Bool.{Bool, true}
use mathlib.Core.List.{List, [], ◌∷◌, ◌++◌}
use mathlib.Core.Logic.{inl, inr}
use mathlib.Core.Option.{Option, none, some, map}
use mathlib.Core.Path.{◌≡◌, refl, ap, sym, ◌∙◌}
use native.Mathlib.Omega.{arith}

module _ {ℓ} {A : Type ℓ} where
  pub drop-drop : (a b : ℕ) (xs : List A) → drop a (drop b xs) ≡ drop (b + a) xs
  drop-drop a zero xs = ap (λ k. drop k xs) (omega arith)
  drop-drop zero (suc b) [] = nothing_left (suc b + zero)
    where
      nothing_left : (k : ℕ) → [] ≡ drop {A = A} k []
      nothing_left zero = refl
      nothing_left (suc k) = refl
  drop-drop (suc a) (suc b) [] = nothing_left (suc b + suc a)
    where
      nothing_left : (k : ℕ) → [] ≡ drop {A = A} k []
      nothing_left zero = refl
      nothing_left (suc k) = refl
  drop-drop a (suc b) (x ∷ xs) = drop-drop a b xs ∙ ap (λ k. drop k (x ∷ xs)) (add_suc a b)
    where
      add_suc : (a b : ℕ) → suc (b + a) ≡ suc b + a
      add_suc a b = omega arith

  pub drop-suc :
      (k : ℕ) (xs : List A) (y : A) (ys : List A) → drop k xs ≡ y ∷ ys → drop (suc k) xs ≡ ys
  drop-suc zero [] y ys h = cc h
  drop-suc zero (x ∷ xs) y ys h = cc h
  drop-suc (suc k) [] y ys h = cc h
  drop-suc (suc k) (x ∷ xs) y ys h = drop-suc k xs y ys h

-- Between two positions.
pub drop-substr : (a b : ℕ) (xs : Bytes) → a ≤ b → drop a xs ≡ substr a (b - a) xs ++ drop b xs
drop-substr a b xs h =
    let e : a + (b - a) ≡ b = omega arith in
    sym (take-append-drop (b - a) (drop a xs))
    ∙ ap (λ t. substr a (b - a) xs ++ t) (drop-drop (b - a) a xs ∙ ap (λ k. drop k xs) e)

pub starts_with-take :
    (m s : Bytes) → starts_with m s ≡ true → (take (length m) s ≡ m) × (length m ≤ length s)
unfolding starts_with
starts_with-take [] s h = (refl, omega arith)
starts_with-take (x ∷ xs) [] h = cc h
starts_with-take (x ∷ xs) (y ∷ ys) h =
    let rest = starts_with-take xs ys (ground arith) in
    let same : x ≡ y = ground arith in ((λ i. sym same i ∷ rest.0 i), omega (arith, rest.1))

map-suc-some : (o : Option ℕ) (k : ℕ) → map suc o ≡ some k → (j : ℕ) × (o ≡ some j) × (k ≡ suc j)
map-suc-some none k h = cc h
map-suc-some (some j) k h = (j, refl, cc h)

pub find_if-bound : (test : ℕ → Bool) (s : Bytes) (k : ℕ) → find_if test s ≡ some k → k < length s
unfolding find_if
find_if-bound test [] k h = cc h
find_if-bound test (c ∷ cs) k h = elim (if-cases (test c) h) [
  | inl (_, e) ↦ ground arith
  | inr (_, e) ↦
      let (j, found, next) = map-suc-some (find_if test cs) k e in
      omega (arith, find_if-bound test cs j found)
]

-- `find` stops where the marker stands.
pub find_text-bound :
    (m s : Bytes) (k : ℕ)
    → find_text m s ≡ some k
    → (starts_with m (drop k s) ≡ true) × (k + length m ≤ length s)
unfolding find_text
find_text-bound m [] k h = cc h
find_text-bound m (c ∷ cs) k h = elim (if-cases (starts_with m (c ∷ cs)) h) [
  | inl (here, e) ↦
      let first : zero ≡ k = cc e in
      rw (← first) (here, omega (arith, (starts_with-take m (c ∷ cs) here).1))
  | inr (_, e) ↦
      let (j, found, next) = map-suc-some (find_text m cs) k e in
      let (there, room) = find_text-bound m cs j found in rw next (there, omega (arith, room))
]

-- The marker stands at a position of the text.
abbrev pub StandsAt : Bytes → Bytes → ℕ → Type 0
StandsAt m text k = (substr k (length m) text ≡ m) × (k + length m ≤ length text)

-- Where something is left, the position is inside.
pub drop-inside :
    (k : ℕ) (text : Bytes) (c : ℕ) (cs : Bytes)
    → drop k text ≡ c ∷ cs
    → k + suc (length cs) ≡ length text
drop-inside zero text c cs e = omega (arith, ap length e)
drop-inside (suc k) [] c cs e = cc e
drop-inside (suc k) (x ∷ xs) c cs e = omega (arith, drop-inside k xs c cs e)

stands_here :
    (m text : Bytes) (c : ℕ) (cs : Bytes) (k : ℕ)
    → drop k text ≡ c ∷ cs
    → starts_with m (c ∷ cs) ≡ true
    → StandsAt m text k
stands_here m text c cs k e h =
    let (same, room) = starts_with-take m (c ∷ cs) h in
    (ap (take (length m)) e ∙ same, omega (arith, room, drop-inside k text c cs e))

-- All occurrences of a marker are places where it stands.
pub occurrences-StandsAt :
    (m text : Bytes) (skipped position : ℕ) (s : Bytes)
    → drop position text ≡ s
    → All (StandsAt m text) (occurrences m skipped position s)
unfolding occurrences
occurrences-StandsAt m text skipped position [] e = tt
occurrences-StandsAt m text (suc skipped) position (c ∷ cs) e =
    occurrences-StandsAt m text skipped (suc position) cs (drop-suc position text c cs e)
occurrences-StandsAt m text zero position (c ∷ cs) e =
    let later = drop-suc position text c cs e in
    if-holds (All (StandsAt m text)) (starts_with m (c ∷ cs))
      (λ here. (
        stands_here m text c cs position e here,
        occurrences-StandsAt m text (length m - 1) (suc position) cs later,
      ))
      (λ _. occurrences-StandsAt m text 0 (suc position) cs later)
