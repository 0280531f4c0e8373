-- ===== src/Renderer/Order.antt =====
-- Sorting the candidates keeps them, and brings them into the order of their positions.
use log_generator.Prelude.{
  ℕ, ◌≤◌, ◌≡◌, true, false, List, [], ◌∷◌, ◌++◌, Bytes, All, All-append, arith, if-holds, ◌⊎◌, inl,
  inr,
}
use log_generator.Renderer.Candidates.{MatchCandidate, insert, sort, before}
use log_generator.Renderer.Places.{Fits}

insert-Fits :
    (text : Bytes) (c : MatchCandidate) (cs : List MatchCandidate)
    → Fits text c
    → All (Fits text) cs
    → All (Fits text) (insert c cs)
unfolding insert
insert-Fits text c [] h hs = (h, tt)
insert-Fits text c (d ∷ ds) h hs =
    if-holds (All (Fits text)) (before d c) (λ _. (hs.0, insert-Fits text c ds h hs.1))
      (λ _. (h, hs))

pub sort-Fits :
    (text : Bytes) (cs : List MatchCandidate) → All (Fits text) cs → All (Fits text) (sort cs)
unfolding sort
sort-Fits text [] h = tt
sort-Fits text (c ∷ cs) h = insert-Fits text c (sort cs) h.0 (sort-Fits text cs h.1)

-- The order of the positions.
abbrev pub Sorted : List MatchCandidate → Type 0
Sorted [] = Unit
Sorted (c ∷ cs) = All (λ d. c.position ≤ d.position) cs × Sorted cs

insert-After :
    (k : ℕ) (c : MatchCandidate) (cs : List MatchCandidate)
    → k ≤ c.position
    → All (λ d. k ≤ d.position) cs
    → All (λ d. k ≤ d.position) (insert c cs)
unfolding insert
insert-After k c [] h hs = (h, tt)
insert-After k c (d ∷ ds) h hs =
    if-holds (All (λ (d : MatchCandidate). k ≤ d.position)) (before d c)
      (λ _. (hs.0, insert-After k c ds h hs.1)) (λ _. (h, hs))

All-After :
    (j k : ℕ) (cs : List MatchCandidate)
    → j ≤ k
    → All (λ d. k ≤ d.position) cs
    → All (λ d. j ≤ d.position) cs
All-After j k [] h hs = tt
All-After j k (d ∷ ds) h hs = (omega (arith, hs.0), All-After j k ds h hs.1)

before-position :
    (c d : MatchCandidate)
    → (before c d ≡ true → c.position ≤ d.position) × (before c d ≡ false → d.position ≤ c.position)
unfolding before
before-position c d = (λ h. ground arith, λ h. ground arith)

insert-Sorted : (c : MatchCandidate) (cs : List MatchCandidate) → Sorted cs → Sorted (insert c cs)
unfolding insert
insert-Sorted c [] h = (tt, tt)
insert-Sorted c (d ∷ ds) h =
    if-holds Sorted (before d c)
      (λ first.
        (insert-After d.position c ds ((before-position d c).0 first) h.0, insert-Sorted c ds h.1))
      (λ later.
        let le = (before-position d c).1 later in
        ((le, All-After c.position d.position ds le h.0), h))

pub sort-Sorted : (cs : List MatchCandidate) → Sorted (sort cs)
unfolding sort
sort-Sorted [] = tt
sort-Sorted (c ∷ cs) = insert-Sorted c (sort cs) (sort-Sorted cs)

-- A candidate begins there.
abbrev pub At : ℕ → List MatchCandidate → Type 0
At k [] = true ≡ false
At k (c ∷ cs) = (k ≡ c.position) ⊎ At k cs

pub At-after : (k j : ℕ) (cs : List MatchCandidate) → All (λ d. j ≤ d.position) cs → At k cs → j ≤ k
At-after k j [] h a = cc a
At-after k j (c ∷ cs) h (inl e) = omega (arith, h.0)
At-after k j (c ∷ cs) h (inr a) = At-after k j cs h.1 a

pub All-step : {P Q : ℕ → Type 0} (step : (k : ℕ) → P k → Q k) (ks : List ℕ) → All P ks → All Q ks
All-step step [] h = tt
All-step step (k ∷ ks) h = (step k h.0, All-step step ks h.1)

-- Every one of the positions is that of a candidate.
abbrev pub AllAt : List MatchCandidate → List ℕ → Type 0
AllAt cs = All (λ k. At k cs)

At-append_left : (k : ℕ) (cs ds : List MatchCandidate) → At k cs → At k (cs ++ ds)
At-append_left k [] ds a = cc a
At-append_left k (c ∷ cs) ds (inl e) = inl e
At-append_left k (c ∷ cs) ds (inr a) = inr (At-append_left k cs ds a)

At-append_right : (k : ℕ) (cs ds : List MatchCandidate) → At k ds → At k (cs ++ ds)
At-append_right k [] ds a = a
At-append_right k (c ∷ cs) ds a = inr (At-append_right k cs ds a)

pub AllAt-append :
    (cs ds : List MatchCandidate) (js ks : List ℕ)
    → AllAt cs js
    → AllAt ds ks
    → AllAt (cs ++ ds) (js ++ ks)
AllAt-append cs ds js ks hj hk =
    All-append (λ k. At k (cs ++ ds)) js ks (All-step (λ k. At-append_left k cs ds) js hj)
      (All-step (λ k. At-append_right k cs ds) ks hk)

pub AllAt-append_right :
    (cs ds : List MatchCandidate) (ks : List ℕ) → AllAt ds ks → AllAt (cs ++ ds) ks
AllAt-append_right cs ds ks h = All-step (λ k. At-append_right k cs ds) ks h

insert-At :
    (k : ℕ) (c : MatchCandidate) (cs : List MatchCandidate) → At k (c ∷ cs) → At k (insert c cs)
unfolding insert
insert-At k c [] a = a
insert-At k c (d ∷ ds) a = if-holds (At k) (before d c) (λ _. behind (insert-At k c ds) a) (λ _. a)
  where
    behind : (At k (c ∷ ds) → At k (insert c ds)) → At k (c ∷ d ∷ ds) → At k (d ∷ insert c ds)
    behind later (inl e) = inr (later (inl e))
    behind later (inr (inl e)) = inl e
    behind later (inr (inr b)) = inr (later (inr b))

sort-At : (k : ℕ) (cs : List MatchCandidate) → At k cs → At k (sort cs)
unfolding sort
sort-At k [] a = cc a
sort-At k (c ∷ cs) (inl e) = insert-At k c (sort cs) (inl e)
sort-At k (c ∷ cs) (inr a) = insert-At k c (sort cs) (inr (sort-At k cs a))

pub sort-AllAt : (cs : List MatchCandidate) (ks : List ℕ) → AllAt cs ks → AllAt (sort cs) ks
sort-AllAt cs ks h = All-step (λ k. sort-At k cs) ks h
