-- ===== src/Storage/SortBuffer/Reducing.antt =====
-- The loop of `take_sorted` in redbit/src/storage/sort_buffer.rs ends with one run, which is sorted
-- and holds all entries.
use redbit.Prelude.{
  ℕ, zero, suc, ◌^◌, ◌≤◌, ◌<◌, ◌≡◌, refl, sym, ◌∙◌, subst, Option, none, some, List, [], ◌∷◌, ◌++◌,
  length, length-append, length-set, append-nil, append_assoc, arith, get_elem?, set,
}
use mathlib.Core.List.{flatten, Perm}
use mathlib.Core.List.Perm
use redbit.Prelude.Order.{KeyOrder}
use redbit.Storage.SortBuffer.Search.{IsSorted}
use redbit.Storage.SortBuffer.Stable.{stable_merge, stable_merge-Perm, length-stable_merge}
use redbit.Storage.SortBuffer.Merge.{merge_sorted_by_key_gallop-stable_merge}
use redbit.Storage.SortBuffer.Levels.{Level}
use redbit.Storage.SortBuffer.Carry.{perm_of, merge_IsRun}
use redbit.Storage.SortBuffer.Reduction.{reduce}
use redbit.Storage.SortBuffer.Heap.{
  NotIn, Held, held_nil, held_cons, pop_lem, set-Held, append_Held, get_elem?-last,
}

module _ {ℓ κ} {K : Type ℓ} {V : Type κ} (order : KeyOrder K) where
  perm_merged :
      (a b xs ys zs : List (K × V))
      → Perm xs (a ++ ys)
      → Perm ys (b ++ zs)
      → Perm (stable_merge order a b ++ zs) xs
  perm_merged a b xs ys zs p q =
      Perm.trans (Perm.append_right zs (stable_merge-Perm order a b)) (
        Perm.trans (perm_of (append_assoc a b zs))
          (Perm.symm (Perm.trans p (Perm.append_left a q))))

  -- The reduction of runs is sorted and holds their entries.
  abbrev pub Reduces : List (List (K × V)) → Option (List (K × V)) → Type (ℓ ⊔ κ)
  Reduces runs result =
      (out : List (K × V)) × (result ≡ some out) × IsSorted order out × Perm out (flatten runs)

  pub reduce_lem :
      (fuel : ℕ) (pool : List (Level K V)) (heap : List (ℕ × ℕ)) (runs : List (List (K × V)))
      (next_idx : ℕ)
      → Held order pool heap runs
      → length pool ≡ next_idx
      → 0 < length heap
      → length heap ≤ suc fuel
      → length (flatten runs) < 2 ^ 63
      → Reduces runs (reduce order fuel pool heap next_idx)
  unfolding reduce flatten
  reduce_lem fuel pool [] runs next_idx held e pos enough small = absurd (omega (arith, pos))
  reduce_lem fuel pool (_ ∷ []) _ next_idx (held_cons e run at is_run other held_nil) _ pos enough
        small =
      rw (reduce, at) (run, refl, is_run.1, perm_of (sym (append-nil run)))
  reduce_lem zero pool (e ∷ e' ∷ heap) runs next_idx held _ pos enough small =
      absurd (omega (arith, enough))
  reduce_lem (suc fuel) pool (e ∷ e' ∷ heap) runs next_idx held idx pos enough small =
      let (top, rest, a, others, popped, at, is_run, fresh, held', perm, long, fewer, _) =
        pop_lem order pool (e ∷ e' ∷ heap) runs held (omega arith) in
      let pool' = set pool top.1 none in
      let (
        top', rest', b, others', popped', at', is_run', fresh', held'', perm', long', fewer', _,
      ) =
        pop_lem order pool' rest others (set-Held order pool rest others top.1 fresh held')
          (omega (arith, fewer)) in
      let pool'' = set pool' top'.1 none in
      let merged = stable_merge order a b in
      let split =
        merge_sorted_by_key_gallop-stable_merge order a b is_run.1 is_run'.1
          (omega (arith, long, small)) (omega (arith, long, long', small)) in
      let (held3, unused) =
        append_Held order pool'' (some merged ∷ []) rest' others'
          (set-Held order pool' rest' others' top'.1 fresh' held'') in
      let same : length pool'' ≡ next_idx =
        length-set pool' top'.1 none ∙ length-set pool top.1 none ∙ idx in
      let pool3 = pool'' ++ some merged ∷ [] in
      let at_last : get_elem? pool3 next_idx ≡ some (some merged) =
        subst (λ (i : ℕ). get_elem? pool3 i ≡ some (some merged)) same
          (get_elem?-last order pool'' (some merged)) in
      let unused' = subst (λ (i : ℕ). NotIn i rest') same unused in
      let (out, done, sorted, kept) =
        reduce_lem fuel pool3 ((length merged, next_idx) ∷ rest') (merged ∷ others') (suc next_idx)
          (held_cons (length merged, next_idx) merged at_last (merge_IsRun order a b is_run is_run')
            unused' held3)
          (length-append pool'' (some merged ∷ []) ∙ omega (arith, same)) (omega arith)
          (omega (arith, enough, fewer, fewer'))
          (omega (
            arith,
            small,
            long,
            long',
            length-append merged (flatten others'),
            length-stable_merge order a b,
          )) in
      rw (reduce, popped, popped', at, at', split, done)
        (
          out,
          refl,
          sorted,
          Perm.trans kept
              (perm_merged a b (flatten runs) (flatten others) (flatten others') perm perm'),
        )
