-- ===== src/Storage/SortBuffer/Appends.antt =====
-- `append_sorted` of `MergeBuffer`: the scan of the levels, and the run that it appends to.
use redbit.Prelude.{
  ℕ, zero, suc, ◌+◌, ◌^◌, ◌≤◌, ◌<◌, ◌≡◌, refl, sym, ap, ◌∙◌, subst, Bool, true, false, Option, none,
  some, List, [], ◌∷◌, ◌++◌, length, append-nil, arith, Bool-cases, if◌then◌else◌, inl, inr,
  get_elem?, set,
}
use redbit.Prelude.Order.{KeyOrder, is_greater}
use redbit.Storage.SortBuffer.{◌>>=◌, is_up_to, last_key}
use redbit.Storage.SortBuffer.Search.{IsSorted}
use redbit.Storage.SortBuffer.Merge.{concat_first}
use redbit.Storage.SortBuffer.Levels.{
  Level, MergeBuffer, Scan, run_at, take_i, scan, append_at, append_sorted, can_append,
}
use redbit.Storage.SortBuffer.Carry.{contents, perm_of, IsRun, AllRuns, merge_IsRun}
use redbit.Storage.SortBuffer.Insertions.{
  Keeps, merge_sorted-Keeps, run_at-IsRun, set-AllRuns, set-Perm,
}

module _ {ℓ κ} {K : Type ℓ} {V : Type κ} where
  -- The level holds a run.
  abbrev Occupied : List (Level K V) → ℕ → Type (ℓ ⊔ κ)
  Occupied levels i = (run : List (K × V)) × (run_at levels i ≡ some run)

  -- A scan has found no run, or its levels hold runs.
  data Scanned (levels : List (Level K V)) : Scan → Type (ℓ ⊔ κ) where
    nothing : Scanned levels (0, none, none)
    found :
        (n k m : ℕ) → Occupied levels k → Occupied levels m → Scanned levels (suc n, some k, some m)

module _ {ℓ κ} {K : Type ℓ} {V : Type κ} (order : KeyOrder K) where
  append_at-Keeps :
      (i : ℕ) (e : K × V) (run : List (K × V)) (b : MergeBuffer K V) (existing : List (K × V))
      → run_at b.levels i ≡ some existing
      → IsRun order existing
      → AllRuns order b.levels
      → IsSorted order (e ∷ run)
      → length (contents b.levels) + length (e ∷ run) < 2 ^ 63
      → Keeps order b (e ∷ run) (append_at order i (e ∷ run) b)
  unfolding append_at can_append
  append_at-Keeps i e run b [] at (pos, _) all sorted small = absurd (omega (arith, pos))
  append_at-Keeps i e run b (x ∷ a) at is_run all sorted small =
      elim (Bool-cases (is_up_to order e.0 (last_key x a))) [
        | inl fits ↦
            let longer =
              subst (IsRun order) (concat_first order x a e run is_run.1 fits)
                (merge_IsRun order (x ∷ a) (e ∷ run) is_run (omega arith, sorted)) in
            rw (append_at, at, can_append, fits)
              (
                record b { levels = set b.levels i (some (x ∷ a ++ e ∷ run)) },
                refl,
                set-AllRuns order b.levels i (x ∷ a ++ e ∷ run) all longer,
                set-Perm order b.levels i (x ∷ a) (e ∷ run) at,
              )
        | inr apart ↦
            rw (append_at, at, can_append, apart)
              (merge_sorted-Keeps order (e ∷ run) b all sorted small)
      ]

  take_i-some :
      (levels : List (Level K V)) (i j : ℕ)
      → AllRuns order levels
      → Occupied levels i
      → Occupied levels j
      → (b : Bool) × (take_i order levels i j ≡ some b)
  unfolding take_i
  take_i-some levels i j all ([], at) (run', at') =
      absurd (omega (arith, (run_at-IsRun order levels i [] all at).0))
  take_i-some levels i j all (x ∷ a, at) ([], at') =
      absurd (omega (arith, (run_at-IsRun order levels j [] all at').0))
  take_i-some levels i j all (x ∷ a, at) (y ∷ b, at') =
      rw (take_i, at, at') (is_greater (order.cmp (last_key x a) (last_key y b)), refl)

  -- From index `i` on, `slots` are the levels.
  abbrev From : List (Level K V) → List (Level K V) → ℕ → Type (ℓ ⊔ κ)
  From levels slots i = (j : ℕ) → get_elem? slots j ≡ get_elem? levels (i + j)

  here :
      (levels slots : List (Level K V)) (i : ℕ) (run : List (K × V))
      → From levels (some run ∷ slots) i
      → Occupied levels i
  here levels slots i run from = (
    run,
    ap (λ (o : Option (Level K V)). do slot ← o; slot)
        (ap (get_elem? levels) (omega arith) ∙ sym (from 0)),
  )

  either :
      (levels : List (Level K V)) (g : Bool) (i j : ℕ)
      → Occupied levels i
      → Occupied levels j
      → Occupied levels (if g then i else j)
  either levels true i j at at' = at
  either levels false i j at at' = at'

  scan_lem :
      (levels slots : List (Level K V)) (i : ℕ) (s : Scan)
      → AllRuns order levels
      → From levels slots i
      → Scanned levels s
      → (s' : Scan) × (scan order levels slots i s ≡ some s')
        × Scanned levels s'
        × (s.0 ≤ s'.0)
        × (s'.0 ≡ 0 → contents slots ≡ [])
  unfolding scan
  scan_lem levels [] i s all from scanned = (s, refl, scanned, omega arith, λ h. refl)
  scan_lem levels (none ∷ slots) i s all from scanned =
      scan_lem levels slots (suc i) s all (λ j. from (suc j) ∙ ap (get_elem? levels) (omega arith))
        scanned
  scan_lem levels (some run ∷ slots) i (_, _, _) all from nothing =
      let at = here levels slots i run from in
      let (s', done, scanned, grew, _) =
        scan_lem levels slots (suc i) (1, some i, some i) all
          (λ j. from (suc j) ∙ ap (get_elem? levels) (omega arith)) (found 0 i i at at) in
      (s', done, scanned, omega arith, λ h. absurd (omega (arith, h, grew)))
  scan_lem levels (some run ∷ slots) i (_, _, _) all from (found n k m at at') =
      let now = here levels slots i run from in
      let (g, e) = take_i-some levels i m all now at' in
      let (s', done, scanned, grew, _) =
        scan_lem levels slots (suc i) (suc (suc n), some k, some (if g then i else m)) all
          (λ j. from (suc j) ∙ ap (get_elem? levels) (omega arith))
          (found (suc n) k (if g then i else m) at (either levels g i m now at')) in
      rw (scan, e) (s', done, scanned, omega (arith, grew), λ h. absurd (omega (arith, h, grew)))

  finish :
      (e : K × V) (run : List (K × V)) (b : MergeBuffer K V) (s : Scan)
      → AllRuns order b.levels
      → IsSorted order (e ∷ run)
      → length (contents b.levels) + length (e ∷ run) < 2 ^ 63
      → scan order b.levels b.levels 0 (0, none, none) ≡ some s
      → Scanned b.levels s
      → (s.0 ≡ 0 → contents b.levels ≡ [])
      → Keeps order b (e ∷ run) (append_sorted order (e ∷ run) b)
  unfolding append_sorted
  finish e run b (_, _, _) all sorted small done nothing empty =
      rw (append_sorted, done)
        (
          record b { levels = some (e ∷ run) ∷ [] },
          refl,
          ((omega arith, sorted), tt),
          perm_of
              (append-nil (e ∷ run) ∙ sym (ap (λ (t : List (K × V)). t ++ e ∷ run) (empty refl))),
        )
  finish e run b (_, _, _) all sorted small done (found zero k m (existing, at) at') empty =
      rw (append_sorted, done)
        (append_at-Keeps k e run b existing at (run_at-IsRun order b.levels k existing all at) all
          sorted small)
  finish e run b (_, _, _) all sorted small done (found (suc n) k m at (existing, at')) empty =
      rw (append_sorted, done)
        (append_at-Keeps m e run b existing at' (run_at-IsRun order b.levels m existing all at') all
          sorted small)

  -- Appending a sorted run to a buffer of sorted runs never panics, wherever the run goes, keeps
  -- all runs sorted and not empty, and keeps all entries, while there are fewer than 2 ^ 63 of them.
  pub append_sorted-Keeps :
      (run : List (K × V)) (b : MergeBuffer K V)
      → AllRuns order b.levels
      → IsSorted order run
      → length (contents b.levels) + length run < 2 ^ 63
      → Keeps order b run (append_sorted order run b)
  unfolding append_sorted
  append_sorted-Keeps [] b all sorted small =
      (b, refl, all, perm_of (sym (append-nil (contents b.levels))))
  append_sorted-Keeps (e ∷ run) b all sorted small =
      let (s, done, scanned, _, empty) =
        scan_lem b.levels b.levels 0 (0, none, none) all
          (λ j. ap (get_elem? b.levels) (omega arith)) nothing in
      finish e run b s all sorted small done scanned empty
