-- ===== src/Chain/WeightBatcher/Batches.antt =====
-- What `WeightBatcher` emits: all items, in order.
use redbit.Prelude.{
  ℕ, ◌+◌, ◌≤◌, ◌<◌, ◌≡◌, ◌≢◌, refl, ◌⊎◌, inl, inr, Bool, true, false, ◌||◌, Option, none, some,
  List, [], ◌∷◌, ◌++◌, arith, leb, leb→le, length, length-append, if◌then◌else◌, usize_max,
  append_assoc, saturating_add,
}
use mathlib.Core.List.{flatten}
use redbit.Chain.WeightBatcher.{
  WeightBatcher, Step, Durability, immediate, deferred, unsupported, flush_if_full, flush,
  push_with, batches,
}

lt_of_leb : (a b : ℕ) → leb a b ≡ false → b < a
lt_of_leb a b h = ground arith

module _ {ℓ} {TB : Type ℓ} (weight_of : TB → ℕ) where
  -- The four ways of a push.
  pub data Push (item : TB) (b : WeightBatcher TB) (r : Option (Step TB)) : Type ℓ where
    now : b.mode ≡ immediate → r ≡ some (b, some (item ∷ [])) → Push item b r
    full :
        b.mode ≡ deferred
        → (b.min_weight ≤ saturating_add usize_max b.weight (weight_of item))
          ⊎ (b.cap ≤ length b.buf + 1)
        → r ≡ some (record b { weight = 0; buf = [] }, some (b.buf ++ item ∷ []))
        → Push item b r
    grow :
        b.mode ≡ deferred
        → saturating_add usize_max b.weight (weight_of item) < b.min_weight
        → length b.buf + 1 < b.cap
        → r
          ≡ some (
            record b {
              weight = saturating_add usize_max b.weight (weight_of item);
              buf = b.buf ++ item ∷ [];
            },
            none,
          )
        → Push item b r
    panic : b.mode ≡ unsupported → r ≡ none → Push item b r

  -- The tests of `push_with` and their answers.
  push_by :
      (item : TB) (b : WeightBatcher TB) (m : Durability) (heavy long : Bool)
      → b.mode ≡ m
      → leb b.min_weight (saturating_add usize_max b.weight (weight_of item)) ≡ heavy
      → leb b.cap (length (b.buf ++ item ∷ [])) ≡ long
      → let b' : WeightBatcher TB = record b {
        weight = saturating_add usize_max b.weight (weight_of item);
        buf = b.buf ++ item ∷ [];
      } in
        let r : Step TB =
          if heavy || long then (record b' { weight = 0; buf = [] }, some b'.buf) else (b', none) in
        Push item b (elim m [
          | immediate ↦ some (b, some (item ∷ []))
          | deferred ↦ some r
          | unsupported ↦ none
        ])
  push_by item b immediate heavy long e p q = now e refl
  push_by item b deferred true long e p q = full e (inl (leb→le _ _ p)) refl
  push_by item b deferred false true e p q =
      full e (inr (omega (arith, leb→le _ _ q, length-append b.buf (item ∷ [])))) refl
  push_by item b deferred false false e p q =
      grow e (lt_of_leb _ _ p) (omega (arith, lt_of_leb _ _ q, length-append b.buf (item ∷ [])))
        refl
  push_by item b unsupported heavy long e p q = panic e refl

  pub push_lem : (item : TB) (b : WeightBatcher TB) → Push item b (push_with weight_of item b)
  unfolding push_with flush_if_full
  push_lem item b = push_by item b b.mode _ _ refl refl refl

  -- One round of `batches`, over what `push_with` returned.
  abbrev pub round : List TB → Option (Step TB) → Option (List (List TB))
  round items r = elim r [
    | none ↦ none
    | some (b', out) ↦ elim (batches weight_of items b') [
      | none ↦ none
      | some later ↦ elim out [ none ↦ some later | some batch ↦ some (batch ∷ later) ]
    ]
  ]

  -- `batches` succeeds, and its batches hold the items in order.
  abbrev Sends : List TB → WeightBatcher TB → Type ℓ
  Sends items b =
      (bs : List (List TB)) × (batches weight_of items b ≡ some bs) × (flatten bs ≡ b.buf ++ items)

  -- The mode is one of the two, and in immediate mode nothing is buffered.
  pub record IsReady (b : WeightBatcher TB) : Type ℓ where
    pub supported : b.mode ≢ unsupported
    pub idle : b.mode ≡ immediate → b.buf ≡ []

  Sends-round :
      (item : TB) (items : List TB) (b : WeightBatcher TB) (r : Option (Step TB))
      → IsReady b
      → Push item b r
      → ((b' : WeightBatcher TB) → IsReady b' → Sends items b')
      → (bs : List (List TB)) × (round items r ≡ some bs) × (flatten bs ≡ b.buf ++ item ∷ items)
  unfolding flatten
  Sends-round item items b r c (now e p) ih =
      let (bs, ran, flat) = ih b c in ((item ∷ []) ∷ bs, rw (p, round, ran), rw (flat, c.idle e))
  Sends-round item items b r c (full e t p) ih =
      let (bs, ran, flat) =
        ih (record b { weight = 0; buf = [] })
          (record { supported = c.supported; idle = λ q. refl }) in
      ((b.buf ++ item ∷ []) ∷ bs, rw (p, round, ran), rw (flat, append_assoc))
  Sends-round item items b r c (grow e s t p) ih =
      let (bs, ran, flat) =
        ih
          (record b {
            weight = saturating_add usize_max b.weight (weight_of item);
            buf = b.buf ++ item ∷ [];
          })
          (record { supported = c.supported; idle = λ q. cc }) in
      (bs, rw (p, round, ran), rw (flat, append_assoc))
  Sends-round item items b r c (panic e p) ih = absurd (c.supported e)

  Sends-nil :
      (b : WeightBatcher TB) (m : Durability) (buf : List TB)
      → b.mode ≡ m
      → b.buf ≡ buf
      → IsReady b
      → Sends [] b
  unfolding batches flush flatten
  Sends-nil b immediate buf e n c = ([], rw e, rw (c.idle e))
  Sends-nil b deferred [] e n c = ([], rw (e, n), rw n)
  Sends-nil b deferred (x ∷ buf) e n c = (b.buf ∷ [], rw (e, n), refl)
  Sends-nil b unsupported buf e n c = absurd (c.supported e)

  -- A run never panics in a supported mode, and its batches, joined, are the buffer and the items
  -- in order.
  pub batches-flatten : (items : List TB) (b : WeightBatcher TB) → IsReady b → Sends items b
  unfolding batches
  batches-flatten [] b c = Sends-nil b b.mode b.buf refl refl c
  batches-flatten (item ∷ items) b c =
      Sends-round item items b (push_with weight_of item b) c (push_lem item b)
        (batches-flatten items)
