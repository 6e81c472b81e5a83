-- ===== src/Storage/Retry/Attempts.antt =====
-- How often an operation that fails is called.
use redbit.Prelude.{
  subst, sym, ℕ, zero, suc, ◌+◌, ◌<◌, ◌≡◌, refl, ap, ◌∙◌, ltb, ltb→lt, Bool-cases, false, some, inl,
  inr, ◌⊎◌, arith,
}
use redbit.Storage.Retry.{Returned, Retried, retry_from, retry_with_delay}

data ReturnedCase {T E : Type 0} (r : Returned T E) : Type 0 where
  is_ok : (v : T) → r ≡ Returned.ok v → ReturnedCase r
  is_err : (e : E) → r ≡ Returned.err e → ReturnedCase r

Returned-cases : {T E : Type 0} (r : Returned T E) → ReturnedCase r
Returned-cases (Returned.ok v) = ReturnedCase.is_ok v refl
Returned-cases (Returned.err e) = ReturnedCase.is_err e refl

last : (i n : ℕ) → i < suc n → ltb i n ≡ false → i ≡ n
last i n h later = ground arith

module _ {T E : Type 0} (op : ℕ → Returned T E) where
  -- The run stopped at the n-th call: the ones before failed, and it succeeded or was the last allowed.
  pub record StopsAt (attempts n : ℕ) : Type 0 where
    pub within : n < attempts
    pub failed : (i : ℕ) → i < n → (e : E) × (op i ≡ Returned.err e)
    pub stops : ((v : T) × (op n ≡ Returned.ok v)) ⊎ (suc n ≡ attempts)

  retry_from_lem :
      (more done : ℕ)
      → ((i : ℕ) → i < done → (e : E) × (op i ≡ Returned.err e))
      → (n : ℕ) × (retry_from op more done
          ≡ record { calls = suc n; delays = n; result = op (done + n) })
        × StopsAt (done + suc more) (done + n)
  unfolding retry_from
  retry_from_lem zero done failed =
      let none_more : done ≡ done + 0 = omega arith in
      (
        0,
        ap (λ i. record { calls = 1; delays = 0; result = op i }) none_more,
        subst (StopsAt (done + 1)) none_more
            (record { within = omega arith; failed = failed; stops = inr (omega arith) }),
      )
  retry_from_lem (suc more) done failed = elim (Returned-cases (op done)) [
    | ReturnedCase.is_ok v is ↦
        let none_more : done ≡ done + 0 = omega arith in
        (
          0,
          rw (retry_from, is)
              (ap (λ r. record { calls = 1; delays = 0; result = r }) (sym is ∙ ap op none_more)),
          subst (StopsAt (done + suc (suc more))) none_more
              (record { within = omega arith; failed = failed; stops = inl (v, is) }),
        )
    | ReturnedCase.is_err e is ↦
        let (n, run, stop) = retry_from_lem more (suc done) (λ i h. elim (Bool-cases (ltb i done)) [
          | inl earlier ↦ failed i (ltb→lt i done earlier)
          | inr later ↦ (e, ap op (last i done h later) ∙ is)
        ]) in
        let move : suc done + n ≡ done + suc n = omega arith in
        let room : suc done + suc more ≡ done + suc (suc more) = omega arith in
        (
          suc n,
          rw (retry_from, is)
              (ap
                  (λ (r : Retried T E). record {
                    calls = suc r.calls;
                    delays = suc r.delays;
                    result = r.result;
                  })
                  run
                ∙ ap (λ i. record { calls = suc (suc n); delays = suc n; result = op i }) move),
          subst (StopsAt (done + suc (suc more))) move
              (subst (λ a. StopsAt a (suc done + n)) room stop),
        )
  ]

  -- With one attempt or more the operation is called until it first succeeds, but no more often than
  -- that; the delay passes between two calls, and the result is the one of the last call.
  pub retry_with_delay_lem :
      (attempts : ℕ)
      → 0 < attempts
      → (n : ℕ) × (retry_with_delay op attempts
          ≡ some (record { calls = suc n; delays = n; result = op n }))
        × StopsAt attempts n
  unfolding retry_with_delay
  retry_with_delay_lem zero h = absurd (omega arith)
  retry_with_delay_lem (suc more) h =
      let (n, run, stop) = retry_from_lem more 0 (λ i h'. absurd (omega arith)) in
      let from : 0 + n ≡ n = omega arith in
      let all : 0 + suc more ≡ suc more = omega arith in
      (
        n,
        ap some run ∙ ap (λ i. some (record { calls = suc n; delays = n; result = op i })) from,
        subst (StopsAt (suc more)) from (subst (λ a. StopsAt a (0 + n)) all stop),
      )
