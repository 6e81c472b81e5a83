-- ===== src/Storage/SortBuffer/Heap.antt =====
-- The reduction of `take_sorted` in redbit/src/storage/sort_buffer.rs: the entries of the heap name
-- the runs of the pool.
use redbit.Prelude.{
  ℕ, zero, suc, ◌+◌, ◌<◌, ◌≡◌, ◌≢◌, refl, sym, ◌∙◌, none, some, List, [], ◌∷◌, ◌++◌, length,
  length-append, append_assoc, arith, Bool-cases, inl, inr, get_elem?, set, get_elem?-set_ne,
}
use mathlib.Core.List.{flatten, Perm, perm_append_comm}
use mathlib.Core.List.Perm
use redbit.Prelude.Order.{KeyOrder}
use redbit.Storage.SortBuffer.Levels.{Level}
use redbit.Storage.SortBuffer.Carry.{perm_of, IsRun}
use redbit.Storage.SortBuffer.Reduction.{is_before, pop}

-- No entry of the heap has this index.
abbrev pub NotIn : ℕ → List (ℕ × ℕ) → Type 0
NotIn i [] = Unit
NotIn i (e ∷ heap) = (i ≢ e.1) × NotIn i heap

module _ {ℓ κ} {K : Type ℓ} {V : Type κ} (order : KeyOrder K) where
  -- The entries of the heap name the runs of a list, at different places of the pool.
  pub data Held (pool : List (Level K V)) : List (ℕ × ℕ) → List (List (K × V)) → Type (ℓ ⊔ κ) where
    held_nil : Held pool [] []
    held_cons :
        (e : ℕ × ℕ) (run : List (K × V)) {heap : List (ℕ × ℕ)} {runs : List (List (K × V))}
        → get_elem? pool e.1 ≡ some (some run)
        → IsRun order run
        → NotIn e.1 heap
        → Held pool heap runs
        → Held pool (e ∷ heap) (run ∷ runs)

  -- `pop` takes an entry and leaves the others.
  abbrev pub Pops : List (Level K V) → List (ℕ × ℕ) → List (List (K × V)) → Type (ℓ ⊔ κ)
  Pops pool heap runs =
      (top : ℕ × ℕ) × (rest : List (ℕ × ℕ)) × (run : List (K × V)) × (others : List (List (K × V)))
      × (pop heap ≡ some (top, rest))
      × (get_elem? pool top.1 ≡ some (some run))
      × IsRun order run
      × NotIn top.1 rest
      × Held pool rest others
      × Perm (flatten runs) (run ++ flatten others)
      × (length (flatten runs) ≡ length run + length (flatten others))
      × (length heap ≡ suc (length rest))
      × ((i : ℕ) → NotIn i heap → (i ≢ top.1) × NotIn i rest)

  -- A run goes from the second place to the first.
  pub perm_second :
      (run run' xs ys : List (K × V))
      → Perm xs (run' ++ ys)
      → Perm (run ++ xs) (run' ++ (run ++ ys))
  perm_second run run' xs ys p = Perm.trans (Perm.append_left run p) (
      Perm.trans (perm_of (sym (append_assoc run run' ys))) (
        Perm.trans (Perm.append_right ys (perm_append_comm run run'))
          (perm_of (append_assoc run' run ys))))

  pub pop_lem :
      (pool : List (Level K V)) (heap : List (ℕ × ℕ)) (runs : List (List (K × V)))
      → Held pool heap runs
      → 0 < length heap
      → Pops pool heap runs
  unfolding pop flatten
  pop_lem pool (e ∷ heap) [] held pos = elim held [ ]
  pop_lem pool [] runs held pos = absurd (omega (arith, pos))
  pop_lem pool (e ∷ []) (run ∷ runs) (held_cons _ _ at is_run fresh held) pos = (
    e,
    [],
    run,
    runs,
    refl,
    at,
    is_run,
    tt,
    held,
    Perm.refl (run ++ flatten runs),
    length-append run (flatten runs),
    refl,
    λ i n. (n.0, tt),
  )
  pop_lem pool (e ∷ e' ∷ heap) (run ∷ runs) (held_cons _ _ at is_run fresh held) pos =
      let (top, rest, run', others, popped, at', is_run', fresh', held', perm, long, fewer, apart) =
        pop_lem pool (e' ∷ heap) runs held (omega arith) in
      let (differs, fresh'') = apart e.1 fresh in
      elim (Bool-cases (is_before top e)) [
        | inl before ↦
            rw (pop, popped, before)
              (
                top,
                e ∷ rest,
                run',
                run ∷ others,
                refl,
                at',
                is_run',
                (λ h. differs (sym h), fresh'),
                held_cons e run at is_run fresh'' held',
                perm_second run run' (flatten runs) (flatten others) perm,
                omega (
                  arith,
                  long,
                  length-append run (flatten runs),
                  length-append run (flatten others),
                ),
                omega (arith, fewer),
                λ i n. let (d, n') = apart i n.1 in (d, (n.0, n')),
              )
        | inr after ↦
            rw (pop, popped, after)
              (
                e,
                top ∷ rest,
                run,
                run' ∷ others,
                refl,
                at,
                is_run,
                (differs, fresh''),
                held_cons top run' at' is_run' fresh' held',
                Perm.append_left run perm,
                omega (
                  arith,
                  long,
                  length-append run (flatten runs),
                  length-append run' (flatten others),
                ),
                omega (arith, fewer),
                λ i n. let (d, n') = apart i n.1 in (n.0, (d, n')),
              )
      ]

  pub set-Held :
      (pool : List (Level K V)) (heap : List (ℕ × ℕ)) (runs : List (List (K × V))) (i : ℕ)
      → NotIn i heap
      → Held pool heap runs
      → Held (set pool i none) heap runs
  set-Held pool _ _ i fresh held_nil = held_nil
  set-Held pool _ _ i fresh (held_cons e run at is_run other held) =
      held_cons e run (get_elem?-set_ne pool none fresh.0 ∙ at) is_run other
        (set-Held pool _ _ i fresh.1 held)

  get_elem?-append :
      (pool more : List (Level K V)) (i : ℕ) (level : Level K V)
      → get_elem? pool i ≡ some level
      → (get_elem? (pool ++ more) i ≡ some level) × (i < length pool)
  get_elem?-append [] more i level at = absurd (ground arith)
  get_elem?-append (l ∷ pool) more zero level at = (at, omega arith)
  get_elem?-append (l ∷ pool) more (suc i) level at =
      let (at', lt) = get_elem?-append pool more i level at in (at', omega arith)

  pub append_Held :
      (pool more : List (Level K V)) (heap : List (ℕ × ℕ)) (runs : List (List (K × V)))
      → Held pool heap runs
      → Held (pool ++ more) heap runs × NotIn (length pool) heap
  append_Held pool more _ _ held_nil = (held_nil, tt)
  append_Held pool more _ _ (held_cons e run at is_run other held) =
      let (at', lt) = get_elem?-append pool more e.1 (some run) at in
      let (held', fresh) = append_Held pool more _ _ held in
      (held_cons e run at' is_run other held', (λ h. absurd (omega (arith, h, lt)), fresh))

  pub get_elem?-last :
      (pool : List (Level K V)) (level : Level K V)
      → get_elem? (pool ++ level ∷ []) (length pool) ≡ some level
  get_elem?-last [] level = refl
  get_elem?-last (l ∷ pool) level = get_elem?-last pool level
