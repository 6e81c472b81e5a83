-- ===== src/Storage/PlainTable/Contents.antt =====
-- What the operations of a plain table leave in it.
use redbit.Prelude.{◌≡◌, refl, Option, some, List, [], ◌∷◌, if◌then◌else◌}
use redbit.Prelude.Equality.{Eq}
use redbit.Storage.Redb.{Table, IsMap, Removed}
use redbit.Storage.PlainTable.{is_some, insert_pairs, delete_kv}

module _ {K V : Type 0} (eq : Eq K) where
  -- The value of a key after writing the pairs in order, from its value before.
  abbrev pub written : List (K × V) → K → Option V → Option V
  written [] j old = old
  written ((k, v) ∷ pairs) j old = written pairs j (if eq.same k j then some v else old)

module _ {K V : Type 0} (eq : Eq K) (T : Table K V) (map : IsMap eq T) where
  -- While redb has no error, writing pairs one by one or many at a time succeeds and leaves at every
  -- key the last value written to it, or its old one.
  pub insert_pairs_lem :
      (pairs : List (K × V)) (t : T.State)
      → (t' : T.State) × (insert_pairs T pairs t ≡ some t')
        × ((j : K) → map.view t' j ≡ written eq pairs j (map.view t j))
  unfolding insert_pairs
  insert_pairs_lem [] t = (t, refl, λ j. refl)
  insert_pairs_lem ((k, v) ∷ pairs) t =
      let (t1, done, updated) = map.insert_ok t k v in
      let (t2, done', after) = insert_pairs_lem pairs t1 in
      rw (insert_pairs, done) (t2, done', λ j. rw (← updated.at j) (after j))

  -- While redb has no error, `delete_kv` says whether the key was there and removes it alone.
  pub delete_kv_lem :
      (k : K) (t : T.State)
      → (t' : T.State) × (delete_kv T k t ≡ some (t', is_some (map.view t k)))
        × Removed eq (map.view t) k (map.view t')
  unfolding delete_kv
  delete_kv_lem k t =
      let (t', done, removed) = map.remove_ok t k in rw (delete_kv, done) (t', refl, removed)
