-- ===== src/Websocket/Retry/Attempts.antt =====
-- websocket/retry_manager.go: the retries against a reference.
use dabri.Prelude.{
  ℕ, zero, suc, ◌+◌, ◌-◌, ◌*◌, ◌≤◌, ◌<◌, ◌≡◌, refl, sym, ap, ◌∙◌, true, false, Option, none, some,
  arith, leb, Option-cases, inl, inr,
}
use dabri.Websocket.Retry.{max_retries, Retried, execute_with_retry}

module _ {S E : Type 0} (fn : S → S × Option E) where
  -- One call, and up to `n` further ones as long as they fail.
  abbrev pub attempts : ℕ → S → S × Option E
  attempts zero s = fn s
  attempts (suc n) s =
      let (s', e) = fn s in let rest = attempts n s' in elim e [ none ↦ (s', none) | some _ ↦ rest ]

  -- The waits of `k` retries, which end at the maximum.
  abbrev pub waits : ℕ → ℕ
  waits zero = 0
  waits (suc k) = (max_retries - k) * 500 + waits k

  -- What `k` retries from a counter of `3 - k` end with.
  abbrev pub Ends : ℕ → ℕ → S → Option (Retried S E) → Type 0
  Ends k slept s o =
      (r : Retried S E) × (o ≡ some r)
      × ((r.state, r.error) ≡ attempts k s)
      × (r.retries ≡ 0)
      × (r.slept ≤ slept + waits k)

  -- The three branches of a call.
  succeeds :
      (fuel retries slept : ℕ) (s : S)
      → (fn s).1 ≡ none
      → execute_with_retry fn (suc fuel) retries slept s
        ≡ some (record { state = (fn s).0; error = none; retries = 0; slept = slept })
  unfolding execute_with_retry
  succeeds fuel retries slept s e = rw (e, execute_with_retry) refl

  gives_up :
      (fuel retries slept : ℕ) (s : S) (err : E)
      → (fn s).1 ≡ some err
      → leb max_retries retries ≡ true
      → execute_with_retry fn (suc fuel) retries slept s
        ≡ some (record { state = (fn s).0; error = some err; retries = 0; slept = slept })
  unfolding execute_with_retry
  gives_up fuel retries slept s err e b = rw (e, execute_with_retry) (rw b refl)

  goes_on :
      (fuel retries slept : ℕ) (s : S) (err : E)
      → (fn s).1 ≡ some err
      → leb max_retries retries ≡ false
      → execute_with_retry fn (suc fuel) retries slept s
        ≡ execute_with_retry fn fuel (retries + 1) (slept + (retries + 1) * 500) (fn s).0
  unfolding execute_with_retry
  goes_on fuel retries slept s err e b = rw (e, execute_with_retry) (rw b refl)

  -- Whatever the operation does, from a counter of at most three and with fuel for the calls that
  -- are left, the retries end: they are one call and up to `3 - retries` further ones while these
  -- fail, the counter is back at zero, and the waits are at most those of the retries.
  pub retry-Ends :
      (k fuel slept : ℕ) (s : S)
      → k ≤ max_retries
      → k < fuel
      → Ends k slept s (execute_with_retry fn fuel (max_retries - k) slept s)
  retry-Ends k zero slept s h f = absurd (omega arith)
  retry-Ends zero (suc fuel) slept s h f = elim (Option-cases (fn s).1) [
    | inl e ↦ (
      record { state = (fn s).0; error = none; retries = 0; slept = slept },
      succeeds fuel max_retries slept s e,
      ap (λ o. ((fn s).0, o)) (sym e),
      refl,
      omega arith,
    )
    | inr (err, e) ↦ (
      record { state = (fn s).0; error = some err; retries = 0; slept = slept },
      gives_up fuel max_retries slept s err e refl,
      ap (λ o. ((fn s).0, o)) (sym e),
      refl,
      omega arith,
    )
  ]
  retry-Ends (suc k) (suc fuel) slept s h f = elim (Option-cases (fn s).1) [
    | inl e ↦ (
      record { state = (fn s).0; error = none; retries = 0; slept = slept },
      succeeds fuel (max_retries - suc k) slept s e,
      rw (e, attempts) refl,
      refl,
      omega arith,
    )
    | inr (err, e) ↦
        let (r, p, a, z, w) =
          retry-Ends k fuel (slept + (max_retries - k) * 500) (fn s).0 (omega arith)
            (omega arith) in
        (
          r,
          goes_on fuel (max_retries - suc k) slept s err e (ground arith) ∙ (rw next p),
          a ∙ (rw (e, attempts) refl),
          z,
          omega (arith, w),
        )
  ]
    where
      next : max_retries - suc k + 1 ≡ max_retries - k
      next = omega (arith, h)
