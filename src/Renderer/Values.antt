-- ===== src/Renderer/Values.antt =====
-- Filling in the values of a test case.
use log_generator.Prelude.Positions.{find_text-bound, drop-drop}
use log_generator.Prelude.Result.{ok}
use log_generator.Prelude.Search.{find_text, find_from, occurrences}
use log_generator.Prelude.{
  ℕ, zero, suc, ◌+◌, ◌-◌, ◌≤◌, ◌<◌, ◌≡◌, refl, ap, sym, ◌∙◌, List, [], ◌∷◌, ◌++◌, append_assoc,
  some, Bytes, starts_with, length, drop, take, length-take, take-append, drop-append,
  take-append-drop, length-drop, length-append, arith, inl, inr, Bool-cases, if◌then◌else◌,
}
use log_generator.Renderer.TestCase.{replace_values}
use mathlib.Core.Option.{map}

-- Bytes that are passed over do not count.
occurrences-skipped :
    (m : Bytes) (skipped position other : ℕ) (s : Bytes)
    → length (occurrences m skipped position s) ≡ length (occurrences m 0 other (drop skipped s))
unfolding occurrences
occurrences-skipped m zero position other [] = refl
occurrences-skipped m (suc skipped) position other [] = refl
occurrences-skipped m zero position other (c ∷ cs) = elim (Bool-cases (starts_with m (c ∷ cs))) [
  | inl here ↦ rw here (
      ap suc (
        occurrences-skipped m (length m - 1) (suc position) 0 cs
        ∙ sym (occurrences-skipped m (length m - 1) (suc other) 0 cs)))
  | inr past ↦ rw past (occurrences-skipped m 0 (suc position) (suc other) cs)
]
occurrences-skipped m (suc skipped) position other (c ∷ cs) =
    occurrences-skipped m skipped (suc position) other cs

-- How often the marker is found, wherever the count begins.
abbrev count_of : Bytes → Bytes → ℕ
count_of m s = length (occurrences m 0 0 s)

take_add : (a b : ℕ) (s : Bytes) → take (a + b) s ≡ take a s ++ take b (drop a s)
take_add zero b s = ap (λ k. take k s) (omega arith)
take_add (suc a) b [] = nothing (suc a + b) ∙ sym (nothing b)
  where
    nothing : (k : ℕ) → take {A = ℕ} k [] ≡ []
    nothing zero = refl
    nothing (suc k) = refl
take_add (suc a) b (c ∷ cs) = ap (λ k. take k (c ∷ cs)) next ∙ ap (◌∷◌ c) (take_add a b cs)
  where
    next : suc a + b ≡ suc (a + b)
    next = omega arith

module _ (sanitize : Bytes → Bytes) (m : Bytes) (some_byte : 0 < length m) where
  -- The text with the values in the places of the markers, and everything else as it was; `skipped`
  -- bytes still belong to a marker.
  unfoldable pub fill : List Bytes → ℕ → Bytes → Bytes
  fill values skipped [] = []
  fill values (suc skipped) (c ∷ cs) = fill values skipped cs
  fill [] zero (c ∷ cs) = c ∷ fill [] 0 cs
  fill (v ∷ vs) zero (c ∷ cs) =
      let filled = sanitize v ++ fill vs (length m - 1) cs in
      let kept = c ∷ fill (v ∷ vs) 0 cs in if starts_with m (c ∷ cs) then filled else kept

  fill-skipped :
      (values : List Bytes) (skipped : ℕ) (s : Bytes)
      → fill values skipped s ≡ fill values 0 (drop skipped s)
  unfolding fill
  fill-skipped values zero s = refl
  fill-skipped values (suc skipped) [] = refl
  fill-skipped values (suc skipped) (c ∷ cs) = fill-skipped values skipped cs

  fill-nothing : (s : Bytes) → fill [] 0 s ≡ s
  unfolding fill
  fill-nothing [] = refl
  fill-nothing (c ∷ cs) = ap (◌∷◌ c) (fill-nothing cs)

  drop-marker : (c : ℕ) (cs : Bytes) → drop (length m - 1) cs ≡ drop (length m) (c ∷ cs)
  drop-marker c cs =
      let e : suc (length m - 1) ≡ length m = omega arith in ap (λ k. drop k (c ∷ cs)) e

  -- Where a marker is counted, `find` finds one, the count behind it is one less, and `fill` puts the
  -- first value there.
  find_text-step :
      (s : Bytes) (v : Bytes) (vs : List Bytes)
      → count_of m s ≡ suc (length vs)
      → (k : ℕ) × (find_text m s ≡ some k)
        × (count_of m (drop (k + length m) s) ≡ length vs)
        × (fill (v ∷ vs) 0 s ≡ take k s ++ (sanitize v ++ fill vs 0 (drop (k + length m) s)))
  unfolding find_text occurrences fill
  find_text-step [] v vs h = absurd (omega (arith, h))
  find_text-step (c ∷ cs) v vs h = elim (Bool-cases (starts_with m (c ∷ cs))) [
    | inl here ↦
        let e : length m ≡ 0 + length m = omega arith in
        let count : length (occurrences m (length m - 1) 1 cs) ≡ length vs =
          omega (arith, rw here at h) in
        rw here (
          0,
          refl,
          ap (λ k. count_of m (drop k (c ∷ cs))) (sym e)
              ∙ ap (count_of m) (sym (drop-marker c cs))
              ∙ sym (occurrences-skipped m (length m - 1) 1 0 cs)
              ∙ count,
          ap (λ t. sanitize v ++ t)
              (fill-skipped vs (length m - 1) cs
                ∙ ap (fill vs 0) (drop-marker c cs ∙ ap (λ k. drop k (c ∷ cs)) e)),
        )
    | inr past ↦
        let count : count_of m cs ≡ suc (length vs) =
          sym (occurrences-skipped m 0 1 0 cs) ∙ rw past at h in
        let (k, found, left, filled) = find_text-step cs v vs count in
        let e : suc (k + length m) ≡ suc k + length m = omega arith in
        rw past (
          suc k,
          ap (map suc) found,
          ap (λ j. count_of m (drop j (c ∷ cs))) (sym e) ∙ left,
          ap (◌∷◌ c) filled
              ∙ ap (λ j. c ∷ (take k cs ++ (sanitize v ++ fill vs 0 (drop j (c ∷ cs))))) e,
        )
  ]

  -- If a marker that is not empty is found in a text as often as there are values, from a position in
  -- the text on, the values are put in its places one after the other, and everything else stays.
  pub replace_values-fill :
      (values : List Bytes) (position : ℕ) (text : Bytes)
      → position ≤ length text
      → length (occurrences m 0 0 (drop position text)) ≡ length values
      → replace_values sanitize m position text values
        ≡ ok (take position text ++ fill values 0 (drop position text))
  unfolding replace_values find_from
  replace_values-fill [] position text inside h = ap ok (
      sym (
        ap (λ t. take position text ++ t) (fill-nothing (drop position text))
        ∙ take-append-drop position text))
  replace_values-fill (v ∷ vs) position text inside h =
      let (k, found, left, filled) = find_text-step (drop position text) v vs h in
      let q = position + k in
      let done = take q text ++ sanitize v in
      let rest = drop (q + length m) text in
      let room = (find_text-bound m (drop position text) k found).1 in
      let whole = append_assoc (take q text) (sanitize v) rest in
      let size : length done ≡ q + length (sanitize v) = omega (
        arith,
        length-append (take q text) (sanitize v),
        length-take q text,
        length-drop position text,
        room,
        inside,
      ) in
      let behind : drop (q + length (sanitize v)) (take q text ++ (sanitize v ++ rest)) ≡ rest =
        (λ i. drop (sym size i) (sym whole i)) ∙ drop-append done rest in
      let before : take (q + length (sanitize v)) (take q text ++ (sanitize v ++ rest)) ≡ done =
        (λ i. take (sym size i) (sym whole i)) ∙ take-append done rest in
      let same_rest : drop (k + length m) (drop position text) ≡ rest =
        drop-drop (k + length m) position text ∙ ap (λ j. drop j text) (omega arith) in
      let later =
        replace_values-fill vs (q + length (sanitize v)) (take q text ++ (sanitize v ++ rest))
          (omega (arith, size, length-append done rest, ap length whole))
          (ap (count_of m) (behind ∙ sym same_rest) ∙ left) in
      rw (found, replace_values)
        (later
          ∙ ap ok (
              (λ i. before i ++ fill vs 0 (behind i))
              ∙ append_assoc (take q text) (sanitize v) (fill vs 0 rest)
              ∙ (λ i. take_add position k text i ++ (sanitize v ++ fill vs 0 (sym same_rest i)))
              ∙ append_assoc (take position text) (take k (drop position text)) _
              ∙ ap (λ t. take position text ++ t) (sym filled)))
