-- ===== src/Pacing.antt =====
-- `RatePacer` of src/application/stress_test_service.cpp. Instants are nanoseconds of the steady clock;
-- the readings of the clock and of the stop token, one after the other, are arguments.
use log_generator.Prelude.Int.{ℤ, pos, ◌+ℤ◌, ◌-ℤ◌, leb_ℤ}
use log_generator.Prelude.Words.{u64_mod}
use log_generator.Prelude.{
  ℕ, zero, suc, ◌*◌, ◌/◌, ◌%◌, ◌^◌, ◌≡◌, Bool, true, false, not, ◌&&◌, ◌||◌, Option, none, some,
  ◌==◌, ltb, arith, if◌then◌else◌, if-cases, inl, inr, sym, subst,
}

pub record RatePacer : Type 0 where
  pub events_per_second : ℕ
  pub next_time : ℤ

-- `static_cast<std::int64_t>` of a word.
abbrev pub to_int64 : ℕ → ℤ
to_int64 n = if ltb n (2 ^ 63) then pos n else pos n -ℤ pos u64_mod

-- The nanoseconds that some events take; the product is one of words.
unfoldable pub pace : ℕ → ℕ → ℤ
pace events_per_second events = to_int64 (1000000000 * events % u64_mod / events_per_second)

abbrev pub less_ℤ : ℤ → ℤ → Bool
less_ℤ a b = not (leb_ℤ b a)

module _ (reading : ℕ → ℤ) (stop_requested : ℕ → Bool) where
  -- The first loop sleeps: it ends at a stop, or 200 microseconds before the time. `call` counts the
  -- readings; the result is missing where the fuel ends.
  unfoldable pub sleep_until : ℕ → ℕ → ℤ → Option ℕ
  sleep_until zero call next = none
  sleep_until (suc fuel) call next =
      let later = sleep_until fuel (suc call) next in
      if not (stop_requested call) && less_ℤ (reading call +ℤ pos 200000) next
      then later
      else some (suc call)

  -- The second loop spins until the time.
  unfoldable pub spin_until : ℕ → ℕ → ℤ → Option ℕ
  spin_until zero call next = none
  spin_until (suc fuel) call next =
      let later = spin_until fuel (suc call) next in
      if not (stop_requested call) && less_ℤ (reading call) next then later else some call

  -- `wait`: the pacer after it, and the number of the last reading.
  unfoldable pub wait : ℕ → RatePacer → ℕ → ℕ → Option (ℕ × RatePacer)
  unfolding pace sleep_until spin_until
  wait fuel pacer call events =
      let next = pacer.next_time +ℤ pace pacer.events_per_second events in
      let now = reading call in
      if pacer.events_per_second == 0 || events == 0
      then some (call, pacer)
      else if less_ℤ (next +ℤ pos 1000000000) now
      then some (call, record pacer { next_time = now })
      else (elim (sleep_until fuel call next) [
        | none ↦ none
        | some awake ↦ elim (spin_until fuel awake next) [
          | none ↦ none
          | some last ↦ some (last, record pacer { next_time = next })
        ]
      ])

  -- Where the spinning ends without a stop, the time has come.
  pub spin_until-time :
      (fuel call : ℕ) (next : ℤ) (last : ℕ)
      → spin_until fuel call next ≡ some last
      → stop_requested last ≡ false
      → leb_ℤ next (reading last) ≡ true
  unfolding spin_until
  spin_until-time zero call next last h running = cc h
  spin_until-time (suc fuel) call next last h running =
      elim (if-cases (not (stop_requested call) && less_ℤ (reading call) next) h) [
        | inl (_, later) ↦ spin_until-time fuel (suc call) next last later running
        | inr (ended, here) ↦
            let same : call ≡ last = cc here in
            subst (λ k. leb_ℤ next (reading k) ≡ true) same
              (ground (arith, subst (λ k. stop_requested k ≡ false) (sym same) running))
      ]
