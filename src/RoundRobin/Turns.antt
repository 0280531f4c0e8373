-- ===== src/RoundRobin/Turns.antt =====
-- The templates that a lone worker takes are the turns 0, 1, 2, … modulo the number of templates,
-- whatever the size of its reservations.
use log_generator.Prelude.Words.{u64_mod}
use log_generator.Prelude.{
  ℕ, zero, suc, ◌+◌, ◌%◌, ◌≤◌, ◌<◌, ◌≡◌, refl, ap, ◌∙◌, ◌⊎◌, inl, inr, List, [], ◌∷◌, ◌==◌,
  if◌then◌else◌, arith, sym, Bool-cases, ==_iff,
}
use native.Mathlib.Nat.{mod-lt, mod-eq_of_lt, mod-add-mod, mod_self, mod-one}
use mathlib.Core.Path.{ap₂}
use log_generator.Prelude.Result.{ok}
use log_generator.RoundRobin.{
  make_cursor, make_worker_cursor, RoundRobinCursor, WorkerRoundRobinCursor, reserve, refill,
  take_turn, worker_next,
}

-- The results of so many calls of `next`.
unfoldable pub draws : ℕ → WorkerRoundRobinCursor → RoundRobinCursor → List ℕ
draws zero w c = []
draws (suc k) w c = let (index, w', c') = worker_next w c in index ∷ draws k w' c'

-- So many turns, from turn `t` on.
unfoldable pub turns : ℕ → ℕ → ℕ → List ℕ
turns zero t n = []
turns (suc k) t n = (t % n) ∷ turns k (t + 1) n

-- The worker is at turn `t`: its block goes on there, or ends there.
record IsAt (t : ℕ) (w : WorkerRoundRobinCursor) (c : RoundRobinCursor) : Type 0 where
  some_items : 0 < c.item_count
  some_turns : 0 < w.reservation_size
  fits : w.remaining ≤ w.reservation_size
  block : (w.remaining ≡ 0) ⊎ (w.current ≡ t % c.item_count)
  shared : (c.item_count ≡ 1) ⊎ (c.next ≡ t + w.remaining)

step_mod : (t n : ℕ) → 0 < n → (if t % n + 1 == n then 0 else t % n + 1) ≡ (t + 1) % n
step_mod t n h = elim (Bool-cases (t % n + 1 == n)) [
  | inl last ↦
      rw last (
        sym
          (sym (mod-add-mod t n 1) ∙ ap (λ x. x % n) ((==_iff (t % n + 1) n).0 last) ∙ mod_self n))
  | inr inside ↦ rw inside (sym (mod-eq_of_lt (ground (arith, mod-lt t h))) ∙ mod-add-mod t n 1)
]

refill-IsAt :
    (t : ℕ) (w : WorkerRoundRobinCursor) (c : RoundRobinCursor)
    → IsAt t w c
    → t + w.reservation_size < u64_mod
    → (IsAt t (refill w c).0 (refill w c).1)
      × (0 < (refill w c).0.remaining)
      × ((refill w c).0.current ≡ t % c.item_count)
      × ((refill w c).1.item_count ≡ c.item_count)
      × ((refill w c).0.reservation_size ≡ w.reservation_size)
unfolding refill
refill-IsAt t w c v room = ground (arith, mod-lt t v.some_items, mod-one t)

take_turn-IsAt :
    (t : ℕ) (w : WorkerRoundRobinCursor) (c : RoundRobinCursor)
    → IsAt t w c
    → 0 < w.remaining
    → w.current ≡ t % c.item_count
    → w.reservation_size < u64_mod
    → IsAt (t + 1) (take_turn w c.item_count) c
unfolding take_turn
take_turn-IsAt t w c v more now small = record {
  some_items = v.some_items;
  some_turns = v.some_turns;
  fits = omega (arith, v.fits);
  block = inr (rw now (step_mod t c.item_count v.some_items));
  shared = ground (arith, v.shared, v.fits);
}

worker_next-IsAt :
    (t : ℕ) (w : WorkerRoundRobinCursor) (c : RoundRobinCursor)
    → IsAt t w c
    → t + w.reservation_size < u64_mod
    → ((worker_next w c).0 ≡ t % c.item_count)
      × (IsAt (t + 1) (worker_next w c).1 (worker_next w c).2)
unfolding worker_next
worker_next-IsAt t w c v room =
    let (at, more, now, same, size) = refill-IsAt t w c v room in
    (
      now,
      take_turn-IsAt t (refill w c).0 (refill w c).1 at more (now ∙ ap (λ n. t % n) (sym same))
          (omega arith),
    )

worker_next-keeps :
    (w : WorkerRoundRobinCursor) (c : RoundRobinCursor)
    → ((worker_next w c).1.reservation_size ≡ w.reservation_size)
      × ((worker_next w c).2.item_count ≡ c.item_count)
unfolding worker_next refill take_turn reserve
worker_next-keeps w c = ground arith

draws-turns-IsAt :
    (k t size n : ℕ) (w : WorkerRoundRobinCursor) (c : RoundRobinCursor)
    → IsAt t w c
    → w.reservation_size ≡ size
    → c.item_count ≡ n
    → t + k + size < u64_mod
    → draws k w c ≡ turns k t n
unfolding draws turns
draws-turns-IsAt zero t size n w c v e f room = refl
draws-turns-IsAt (suc k) t size n w c v e f room =
    let (now, later) = worker_next-IsAt t w c v (omega arith) in
    let (e', f') = worker_next-keeps w c in
    ap₂ ◌∷◌ (now ∙ ap (λ m. t % m) f) (
      draws-turns-IsAt k (t + 1) size n (worker_next w c).1 (worker_next w c).2 later (e' ∙ e)
        (f' ∙ f) (omega arith))

-- With some reservation size, and fewer than 2 ^ 64 turns together with it, the indices that one
-- worker takes from a new cursor are the turns 0, 1, 2, … modulo the number of templates.
pub draws-turns :
    (k n size : ℕ) (c : RoundRobinCursor)
    → make_cursor n ≡ ok c
    → 0 < size
    → k + size < u64_mod
    → draws k (make_worker_cursor size) c ≡ turns k 0 n
draws-turns k n size c made s room =
    draws-turns-IsAt k 0 size n (make_worker_cursor size) c at refl (counts.0) (omega arith)
  where
    counts : (c.item_count ≡ n) × (c.next ≡ 0) × (0 < n)
    counts = unfold make_cursor in ground arith

    at : IsAt 0 (make_worker_cursor size) c
    at = record {
      some_items = ground (arith, counts);
      some_turns = s;
      fits = omega arith;
      block = inl refl;
      shared = inr (ground (arith, counts));
    }
