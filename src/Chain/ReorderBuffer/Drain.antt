-- ===== src/Chain/ReorderBuffer/Drain.antt =====
-- The loop of `ReorderBuffer::insert`, against the first arrival at each height.
use redbit.Prelude.{
  ℕ, zero, suc, ◌+◌, ◌≤◌, ◌<◌, ◌≡◌, refl, ap, Option, none, some, List, [], ◌∷◌, ◌++◌, map, arith,
  ltb, length, if◌then◌else◌, Option-cases, inl, inr, u32_max, wrapping_inc,
}
use Prim.Native.Nat.add
use native.Mathlib.Nat.{zero-add, add-zero}
use redbit.Prelude.Assoc.{get, without, get-without, get-append, length-without-lt}
use redbit.Chain.ReorderBuffer.{drain}

-- Every arrival has a height whose successor is a `u32` too.
abbrev pub InRange {ℓ} : {TB : Type ℓ} → List (ℕ × TB) → Type ℓ
InRange {TB} arrivals = (h : ℕ) (b : TB) → get h arrivals ≡ some b → h < u32_max

module _ {ℓ} {TB : Type ℓ} where
  -- The first arrivals at the heights start, start + 1, ..., of which there are n.
  abbrev pub window : List (ℕ × TB) → ℕ → ℕ → List (Option TB)
  window arrivals start zero = []
  window arrivals start (suc n) = get start arrivals ∷ window arrivals (start + 1) n

  -- Exactly the arrivals at `next` or above are pending.
  abbrev pub Holds : List (ℕ × TB) → ℕ → List (ℕ × TB) → Type ℓ
  Holds arrivals next pending =
      (j : ℕ) → get j pending ≡ (if ltb j next then none else get j arrivals)

  -- What the loop has done: it releases a window from `next` on.
  pub record Drained (arrivals : List (ℕ × TB)) (next : ℕ) (r : List TB × ℕ × List (ℕ × TB))
      : Type ℓ where
    pub in_order : map some r.0 ≡ window arrivals next (length r.0)
    pub position : r.1 ≡ next + length r.0
    pub waits : get r.1 arrivals ≡ none
    pub holds : Holds arrivals r.1 r.2

  pub window-append :
      (arrivals : List (ℕ × TB)) (s a b : ℕ)
      → window arrivals s (a + b) ≡ window arrivals s a ++ window arrivals (s + a) b
  window-append arrivals s zero b = rw (zero-add, add-zero)
  window-append arrivals s (suc a) b =
      rw (add.suc, window-append arrivals (s + 1) a b)
        (ap (λ (t : ℕ). get s arrivals ∷ window arrivals (s + 1) a ++ window arrivals t b)
          (omega arith))

  pub window_mono :
      (arrivals more : List (ℕ × TB)) (s : ℕ) (out : List TB)
      → map some out ≡ window arrivals s (length out)
      → map some out ≡ window (arrivals ++ more) s (length out)
  window_mono arrivals more s [] h = refl
  window_mono arrivals more s (b ∷ out) h =
      ground (arith, get-append s arrivals more, window_mono arrivals more (s + 1) out)

  Holds-without :
      (arrivals : List (ℕ × TB)) (next : ℕ) (pending : List (ℕ × TB))
      → Holds arrivals next pending
      → Holds arrivals (next + 1) (without next pending)
  Holds-without arrivals next pending held j = ground (arith, get-without next j pending, held j)

  Drained-stop :
      (arrivals : List (ℕ × TB)) (next : ℕ) (pending : List (ℕ × TB))
      → Holds arrivals next pending
      → get next pending ≡ none
      → Drained arrivals next ([], next, pending)
  Drained-stop arrivals next pending held missing = record {
    in_order = refl;
    position = omega arith;
    waits = ground (arith, held next);
    holds = held;
  }

  Drained-step :
      (arrivals : List (ℕ × TB)) (next : ℕ) (b : TB) (r : List TB × ℕ × List (ℕ × TB))
      → get next arrivals ≡ some b
      → Drained arrivals (next + 1) r
      → Drained arrivals next (b ∷ r.0, r.1, r.2)
  Drained-step arrivals next b r found d = record {
    in_order = rw (found, d.in_order);
    position = omega (arith, d.position);
    waits = d.waits;
    holds = d.holds;
  }

  pub drain_lem :
      (arrivals : List (ℕ × TB)) (fuel next : ℕ) (pending : List (ℕ × TB))
      → InRange arrivals
      → Holds arrivals next pending
      → length pending ≤ fuel
      → Drained arrivals next (drain fuel next pending)
  unfolding drain
  drain_lem arrivals zero next [] ok held few = Drained-stop arrivals next [] held refl
  drain_lem arrivals zero next (e ∷ pending) ok held few = absurd (omega arith)
  drain_lem arrivals (suc fuel) next pending ok held few = elim (Option-cases (get next pending)) [
    | inl missing ↦ rw (missing, drain) (Drained-stop arrivals next pending held missing)
    | inr (b, found) ↦
        let arrived : get next arrivals ≡ some b = ground (arith, held next) in
        let room = ok next b arrived in
        let step : wrapping_inc next ≡ next + 1 = omega arith in
        rw (found, drain, step)
          (Drained-step arrivals next b _ arrived (
            drain_lem arrivals fuel (next + 1) (without next pending) ok
              (Holds-without arrivals next pending held)
              (omega (arith, length-without-lt next pending b found))))
  ]
