-- ===== src/Chain/ReorderBuffer/Gap.antt =====
-- `gap_span` of `ReorderBuffer`, against what is pending.
use redbit.Prelude.{
  ℕ, ◌≤◌, ◌<◌, ◌≡◌, ◌≢◌, refl, ◌∙◌, sym, ◌⊎◌, inl, inr, Option, none, some, List, [], ◌∷◌, ◌++◌,
  arith, length-append, ltb, leb, ltb→lt, lt→ltb, leb→le, tests, Bool-cases, false, if◌then◌else◌,
  ◌==◌, append_assoc, append-nil, Option-cases,
}
use redbit.Prelude.Assoc.{get, get-append}
use redbit.Chain.ReorderBuffer.{ReorderBuffer, new, see, insert, release, feed, gap_span}
use redbit.Chain.ReorderBuffer.Drain.{InRange}
use redbit.Chain.ReorderBuffer.Delivery.{
  Delivered, Delivered-new, delivered, insert-Delivered, InRange-prefix, due_of_ltb, pending-feed,
}

lt_of_le_ne : (a b : ℕ) → a ≤ b → a ≢ b → a < b
lt_of_le_ne a b h ne = omega arith

not-le_of_leb : (a b : ℕ) → leb a b ≡ false → ¬ (a ≤ b)
not-le_of_leb a b h = ground arith

module _ {ℓ} {TB : Type ℓ} where
  -- Nothing has arrived at `next` or above but up to the height `o`, where something has.
  abbrev Tops : List (ℕ × TB) → ℕ → Option ℕ → Type ℓ
  Tops arrivals next none = (j : ℕ) → next ≤ j → get j arrivals ≡ none
  Tops arrivals next (some m) =
      (get m arrivals ≢ none) × ((j : ℕ) → next ≤ j → get j arrivals ≢ none → j ≤ m)

  got-append :
      (j : ℕ) (arrivals : List (ℕ × TB)) (height : ℕ) (block : TB)
      → get j arrivals ≢ none
      → get j (arrivals ++ (height, block) ∷ []) ≢ none
  got-append j arrivals height block h e =
      h (ground (arith, get-append j arrivals ((height, block) ∷ [])))

  got-append_self :
      (arrivals : List (ℕ × TB)) (height : ℕ) (block : TB)
      → get height (arrivals ++ (height, block) ∷ []) ≢ none
  got-append_self arrivals height block e =
      ground (arith, get-append height arrivals ((height, block) ∷ []))

  got-append_inv :
      (j : ℕ) (arrivals : List (ℕ × TB)) (height : ℕ) (block : TB)
      → get j (arrivals ++ (height, block) ∷ []) ≢ none
      → (height ≡ j) ⊎ (get j arrivals ≢ none)
  got-append_inv j arrivals height block h = elim (Bool-cases (height == j)) [
    | inl same ↦ inl (ground arith)
    | inr other ↦ inr (λ e. h (ground (arith, get-append j arrivals ((height, block) ∷ []))))
  ]

  Tops-late :
      (arrivals : List (ℕ × TB)) (height : ℕ) (block : TB) (next : ℕ) (o : Option ℕ)
      → height < next
      → Tops arrivals next o
      → Tops (arrivals ++ (height, block) ∷ []) next o
  Tops-late arrivals height block next none late t =
      λ j due. ground (arith, get-append j arrivals ((height, block) ∷ []), t j due)
  Tops-late arrivals height block next (some m) late t = (
    got-append m arrivals height block t.0,
    λ j due there. elim (got-append_inv j arrivals height block there) [
      | inl e ↦ omega arith
      | inr old ↦ t.1 j due old
    ],
  )

  Tops-see :
      (arrivals : List (ℕ × TB)) (height : ℕ) (block : TB) (next next' : ℕ) (o : Option ℕ)
      → next ≤ height
      → next ≤ next'
      → Tops arrivals next o
      → Tops (arrivals ++ (height, block) ∷ []) next' (see o height)
  unfolding see
  Tops-see arrivals height block next next' none due on t = (
    got-append_self arrivals height block,
    λ j p there. elim (got-append_inv j arrivals height block there) [
      | inl e ↦ omega arith
      | inr old ↦ absurd (old (t j (omega arith)))
    ],
  )
  Tops-see arrivals height block next next' (some m) due on t = elim (Bool-cases (ltb m height)) [
    | inl higher ↦ rw higher (
      got-append_self arrivals height block,
      λ j p there. elim (got-append_inv j arrivals height block there) [
        | inl e ↦ omega arith
        | inr old ↦ omega (tests, t.1 j (omega arith) old)
      ],
    )
    | inr lower ↦ rw lower (
      got-append m arrivals height block t.0,
      λ j p there. elim (got-append_inv j arrivals height block there) [
        | inl e ↦ omega (arith, due_of_ltb m height lower)
        | inr old ↦ t.1 j (omega arith) old
      ],
    )
  ]

  max_seen-insert :
      (height : ℕ) (block : TB) (r : ReorderBuffer TB)
      → ltb height r.next_height ≡ false
      → (insert height block r).0.max_seen ≡ see r.max_seen height
  unfolding insert release
  max_seen-insert height block r due = rw due

  insert-Tops :
      (start : ℕ) (arrivals : List (ℕ × TB)) (height : ℕ) (block : TB) (r : ReorderBuffer TB)
      (out : List TB)
      → InRange (arrivals ++ (height, block) ∷ [])
      → Delivered start arrivals r out
      → Tops arrivals r.next_height r.max_seen
      → Tops
          (arrivals ++ (height, block) ∷ [])
          (insert height block r).0.next_height
          (insert height block r).0.max_seen
  insert-Tops start arrivals height block r out ok d t =
      let step = insert-Delivered start arrivals height block r out ok d in
      let on : r.next_height ≤ (insert height block r).0.next_height =
        omega (arith, step.position, d.position, length-append out (insert height block r).1) in
      elim (Bool-cases (ltb height r.next_height)) [
        | inl late ↦
            unfold insert in
            rw (late, insert)
              (Tops-late arrivals height block r.next_height r.max_seen (ltb→lt _ _ late) t)
        | inr due ↦ rw (max_seen-insert height block r due) (
            Tops-see arrivals height block r.next_height (insert height block r).0.next_height
              r.max_seen (due_of_ltb _ _ due) on t)
      ]

  feed-Tops :
      (start : ℕ) (past more : List (ℕ × TB)) (r : ReorderBuffer TB) (out : List TB)
      → InRange (past ++ more)
      → Delivered start past r out
      → Tops past r.next_height r.max_seen
      → Tops (past ++ more) (feed more r).0.next_height (feed more r).0.max_seen
  unfolding feed
  feed-Tops start past [] r out ok d t = rw append-nil t
  feed-Tops start past ((height, block) ∷ more) r out ok d t =
      let ok' : InRange ((past ++ (height, block) ∷ []) ++ more) =
        rw (append_assoc past ((height, block) ∷ []) more) ok in
      let now = InRange-prefix (past ++ (height, block) ∷ []) more ok' in
      rw (← append_assoc past ((height, block) ∷ []) more) (
        feed-Tops start (past ++ (height, block) ∷ []) more (insert height block r).0
          (out ++ (insert height block r).1) ok'
          (insert-Delivered start past height block r out now d)
          (insert-Tops start past height block r out now d t))

  -- What `gap_span` reports, seen from what is pending.
  abbrev pub Spans : ReorderBuffer TB → Option (ℕ × ℕ) → Type ℓ
  Spans r none = (j : ℕ) → get j r.pending ≡ none
  Spans r (some (low, high)) =
      (low ≡ r.next_height)
      × (get high r.pending ≢ none)
      × ((j : ℕ) → get j r.pending ≢ none → (low < j) × (j ≤ high))

  pending_above :
      (arrivals : List (ℕ × TB)) (r : ReorderBuffer TB) (j : ℕ)
      → get j r.pending ≡ (if ltb r.next_height j then get j arrivals else none)
      → get j r.pending ≢ none
      → (r.next_height < j) × (get j arrivals ≢ none)
  pending_above arrivals r j held there = elim (Bool-cases (ltb r.next_height j)) [
    | inl above ↦ (ltb→lt _ _ above, λ e. there (held ∙ rw (above, e)))
    | inr below ↦ absurd (there (held ∙ rw below))
  ]

  Spans-of_top :
      (arrivals : List (ℕ × TB)) (r : ReorderBuffer TB)
      → get r.next_height arrivals ≡ none
      → ((j : ℕ) → get j r.pending ≡ (if ltb r.next_height j then get j arrivals else none))
      → (o : Option ℕ) → Tops arrivals r.next_height o
      → Spans r (elim o [
        | none ↦ none
        | some ms ↦ if leb r.next_height ms then some (r.next_height, ms) else none
      ])
  Spans-of_top arrivals r waits held none t = λ j. elim (Bool-cases (ltb r.next_height j)) [
    | inl above ↦ held j ∙ rw above (t j (omega (arith, ltb→lt r.next_height j above)))
    | inr below ↦ held j ∙ rw below
  ]
  Spans-of_top arrivals r waits held (some m) t = elim (Bool-cases (leb r.next_height m)) [
    | inl due ↦
        let above : r.next_height < m =
          lt_of_le_ne _ _ (leb→le _ _ due) (λ e. t.0 (rw (← e) waits)) in
        rw due (
          refl,
          λ e. t.0 (sym (held m ∙ rw (lt→ltb _ _ above)) ∙ e),
          λ j there.
              let (up, got) = pending_above arrivals r j (held j) there in
              (up, t.1 j (omega arith) got),
        )
    | inr past ↦ rw past (λ j. elim (Option-cases (get j r.pending)) [
      | inl empty ↦ empty
      | inr (b, found) ↦
          let (up, got) = pending_above arrivals r j (held j) (λ e. cc) in
          absurd (not-le_of_leb _ _ past (omega (arith, t.1 j (omega arith) got)))
    ])
  ]

  -- After any run from `start`, with no arrival at the largest `u32`, `gap_span` is `None` exactly
  -- when nothing is pending; else it is the height waited for and the largest pending height, and
  -- all pending heights lie between, the first one excluded.
  gap_span-pending :
      (start hint : ℕ) (arrivals : List (ℕ × TB))
      → InRange arrivals
      → Spans (feed arrivals (new start hint)).0 (gap_span (feed arrivals (new start hint)).0)
  unfolding gap_span
  gap_span-pending start hint arrivals ok =
      Spans-of_top arrivals (feed arrivals (new start hint)).0
        (delivered start hint arrivals ok).waits (λ j. pending-feed start hint arrivals j ok)
        (feed arrivals (new start hint)).0.max_seen
        (feed-Tops start [] arrivals (new start hint) [] ok (Delivered-new start hint)
          (unfold new in λ j due. refl))
