-- ===== src/Chain/ReorderBuffer/Delivery.antt =====
-- The order in which `ReorderBuffer` releases blocks, against the arrivals alone.
use redbit.Prelude.{
  ℕ, ◌+◌, ◌≤◌, ◌<◌, ◌≡◌, refl, ap, Bool, true, false, Option, none, some, List, [], ◌∷◌, ◌++◌, map,
  arith, ltb, ltb→lt, ◌==◌, length, length-append, if◌then◌else◌, Bool-cases, inl, inr,
  append_assoc, append-nil,
}
use mathlib.Core.List.{map-append}
use redbit.Prelude.Assoc.{get, get-without, get-append}
use redbit.Chain.ReorderBuffer.{ReorderBuffer, new, drain, see, admit, release, insert, feed}
use redbit.Chain.ReorderBuffer.Drain.{InRange, window, Holds, window-append, window_mono, drain_lem}

late_of_eq : (height j next : ℕ) → next ≤ height → (height == j) ≡ true → ltb j next ≡ false
late_of_eq height j next due eq = ground arith

pub due_of_ltb : (height next : ℕ) → ltb height next ≡ false → next ≤ height
due_of_ltb height next h = ground arith

not-ltb_of_lt : (a b : ℕ) → a < b → ltb b a ≡ false
not-ltb_of_lt a b h = ground arith

pending_split {ℓ} :
    {A : Type ℓ} (next height : ℕ) (o : Option A)
    → (next ≡ height → o ≡ none)
    → (if ltb height next then none else o) ≡ (if ltb next height then o else none)
pending_split next height o h = elim (Bool-cases (ltb height next)) [
  | inl below ↦ rw (below, not-ltb_of_lt height next (ltb→lt _ _ below))
  | inr due ↦ elim (Bool-cases (ltb next height)) [
    | inl above ↦ rw (due, above)
    | inr here ↦
        rw (due, here, h (omega (arith, due_of_ltb height next due, due_of_ltb next height here)))
  ]
]

module _ {ℓ} {TB : Type ℓ} where
  -- What the buffer has done after some arrivals.
  pub record Delivered (start : ℕ) (arrivals : List (ℕ × TB)) (r : ReorderBuffer TB) (out : List TB)
      : Type ℓ where
    pub in_order : map some out ≡ window arrivals start (length out)
    pub position : r.next_height ≡ start + length out
    pub waits : get r.next_height arrivals ≡ none
    pub holds : Holds arrivals r.next_height r.pending

  -- A late block changes nothing: it is no first arrival at a height still awaited.
  Delivered-late :
      (start : ℕ) (arrivals : List (ℕ × TB)) (height : ℕ) (block : TB) (r : ReorderBuffer TB)
      (out : List TB)
      → height < r.next_height
      → Delivered start arrivals r out
      → Delivered start (arrivals ++ (height, block) ∷ []) r out
  Delivered-late start arrivals height block r out late d = record {
    in_order = window_mono arrivals ((height, block) ∷ []) start out d.in_order;
    position = d.position;
    waits = ground (arith, get-append r.next_height arrivals ((height, block) ∷ []), d.waits);
    holds = λ j. ground (arith, get-append j arrivals ((height, block) ∷ []), d.holds j);
  }

  get-admit :
      (height : ℕ) (block : TB) (pending : List (ℕ × TB)) (j : ℕ)
      → get j (admit height block pending)
        ≡ elim (get j pending) [ none ↦ if height == j then some block else none | some v ↦ some v ]
  unfolding admit
  get-admit height block pending j = ground (arith, get-without height j pending)

  -- The two ways to tell what is pending at a height agree, since a late height is not admitted.
  admit_due :
      (late same : Bool) (o : Option TB) (block : TB)
      → (same ≡ true → late ≡ false)
      → elim (if late then none else o) [
        | none ↦ if same then some block else none
        | some v ↦ some v
      ]
        ≡ (if late
            then none
            else elim o [ none ↦ if same then some block else none | some v ↦ some v ])
  admit_due late same o block h = ground arith

  Holds-admit :
      (arrivals : List (ℕ × TB)) (height : ℕ) (block : TB) (next : ℕ) (pending : List (ℕ × TB))
      → next ≤ height
      → Holds arrivals next pending
      → Holds (arrivals ++ (height, block) ∷ []) next (admit height block pending)
  unfolding admit
  Holds-admit arrivals height block next pending due held j =
      rw (get-admit, get-append, held j)
        (admit_due (ltb j next) (height == j) (get j arrivals) block
          (λ eq. late_of_eq height j next due eq))

  Delivered-release :
      (start : ℕ) (arrivals : List (ℕ × TB)) (height : ℕ) (block : TB) (r : ReorderBuffer TB)
      (out : List TB) (seen : Option ℕ)
      → r.next_height ≤ height
      → InRange (arrivals ++ (height, block) ∷ [])
      → Delivered start arrivals r out
      → let s = release (record r { max_seen = seen; pending = admit height block r.pending }) in
        Delivered start (arrivals ++ (height, block) ∷ []) s.0 (out ++ s.1)
  unfolding release
  Delivered-release start arrivals height block r out seen due ok d =
      let more = arrivals ++ (height, block) ∷ [] in
      let admitted = admit height block r.pending in
      let dr =
        drain_lem more (length admitted) r.next_height admitted ok
          (Holds-admit arrivals height block r.next_height r.pending due d.holds) (omega arith) in
      let ready = (drain (length admitted) r.next_height admitted).0 in
      record {
        in_order =
            rw (map-append, length-append, window-append, ← d.position, ← dr.in_order)
              (ap (λ (t : List (Option TB)). t ++ map some ready)
                (window_mono arrivals ((height, block) ∷ []) start out d.in_order));
        position = omega (arith, dr.position, d.position, length-append out ready);
        waits = dr.waits;
        holds = dr.holds;
      }

  pub insert-Delivered :
      (start : ℕ) (arrivals : List (ℕ × TB)) (height : ℕ) (block : TB) (r : ReorderBuffer TB)
      (out : List TB)
      → InRange (arrivals ++ (height, block) ∷ [])
      → Delivered start arrivals r out
      → Delivered start
          (arrivals ++ (height, block) ∷ [])
          (insert height block r).0
          (out ++ (insert height block r).1)
  unfolding insert
  insert-Delivered start arrivals height block r out ok d =
      elim (Bool-cases (ltb height r.next_height)) [
        | inl late ↦
            let e = Delivered-late start arrivals height block r out (ltb→lt _ _ late) d in
            rw (late, insert, append-nil)
              (record {
                in_order = e.in_order;
                position = e.position;
                waits = e.waits;
                holds = e.holds;
              })
        | inr due ↦
            rw (due, insert)
              (Delivered-release start arrivals height block r out (see r.max_seen height)
                (due_of_ltb _ _ due) ok d)
      ]

  pub InRange-prefix : (past more : List (ℕ × TB)) → InRange (past ++ more) → InRange past
  InRange-prefix past more ok h b found = ok h b (rw (get-append, found))

  feed-Delivered :
      (start : ℕ) (past more : List (ℕ × TB)) (r : ReorderBuffer TB) (out : List TB)
      → InRange (past ++ more)
      → Delivered start past r out
      → Delivered start (past ++ more) (feed more r).0 (out ++ (feed more r).1)
  unfolding feed
  feed-Delivered start past [] r out ok d = simp append-nil d
  feed-Delivered start past ((height, block) ∷ more) r out ok d =
      let regroup = append_assoc past ((height, block) ∷ []) more in
      let ok' : InRange ((past ++ (height, block) ∷ []) ++ more) = rw regroup ok in
      let step =
        insert-Delivered start past height block r out
          (InRange-prefix (past ++ (height, block) ∷ []) more ok') d in
      rw (← regroup, ← append_assoc)
        (feed-Delivered start (past ++ (height, block) ∷ []) more (insert height block r).0
          (out ++ (insert height block r).1) ok' step)

  pub Delivered-new : (start hint : ℕ) → Delivered start [] (new start hint) []
  unfolding new
  Delivered-new start hint = record {
    in_order = refl;
    position = omega arith;
    waits = refl;
    holds = λ j. ground arith;
  }

  pub delivered :
      (start hint : ℕ) (arrivals : List (ℕ × TB))
      → InRange arrivals
      → Delivered start arrivals
          (feed arrivals (new start hint)).0
          (feed arrivals (new start hint)).1
  delivered start hint arrivals ok =
      feed-Delivered start [] arrivals (new start hint) [] ok (Delivered-new start hint)

  -- A buffer that starts at `start` and is fed any arrivals, in any order, late ones and
  -- duplicates among them, none at the largest `u32`: what it has released is the first arrival
  -- at `start`, at `start + 1`, and so on without a gap, `next_height` is the height after the
  -- last one released, and nothing has arrived at `next_height`.
  pub feed-window :
      (start hint : ℕ) (arrivals : List (ℕ × TB))
      → InRange arrivals
      → let (r, out) = feed arrivals (new start hint) in
        (map some out ≡ window arrivals start (length out))
        × (r.next_height ≡ start + length out)
        × (get r.next_height arrivals ≡ none)
  feed-window start hint arrivals ok =
      let d = delivered start hint arrivals ok in (d.in_order, d.position, d.waits)

  -- After any such run, the pending blocks are exactly the first arrivals at heights above
  -- `next_height`, so a late block is never kept.
  pub pending-feed :
      (start hint : ℕ) (arrivals : List (ℕ × TB)) (height : ℕ)
      → InRange arrivals
      → let r = (feed arrivals (new start hint)).0 in
        get height r.pending ≡ (if ltb r.next_height height then get height arrivals else none)
  pending-feed start hint arrivals height ok =
      let d = delivered start hint arrivals ok in
      let next = (feed arrivals (new start hint)).0.next_height in
      rw (d.holds height) (pending_split next height (get height arrivals) (λ e. rw e at d.waits))
