-- ===== src/Macros/Columns/Rootless.antt =====
-- Chaining and gathering the columns of an entity make no root key.
use redbit.Prelude.{
  ℕ, zero, suc, ◌≡◌, refl, subst, true, false, some, List, [], ◌∷◌, ◌++◌, ltb, Bool-cases,
  Option-cases, inl, inr,
}
use redbit.Prelude.Equality.{Eq}
use redbit.Prelude.Collect.{All, All-append}
use redbit.Macros.Columns.{
  ColumnDef, Parsed, ◌>>=◌, remove_at, find_dependency_from, mark_used, find_used_from, remove_both,
  take_and_chain_relation_with_plain, Gathered, gather, gather_all,
}

pub >>=-eq-ok :
    {A B : Type 0} (m : Parsed A) (f : A → Parsed B) {b : B}
    → (m >>= f) ≡ Parsed.ok b
    → (a : A) × (m ≡ Parsed.ok a) × (f a ≡ Parsed.ok b)
>>=-eq-ok (Parsed.ok a) f h = (a, refl, h)
>>=-eq-ok (Parsed.err e) f h = cc
>>=-eq-ok Parsed.panic f h = cc

remove_at-All :
    {A : Type 0} (P : A → Type 0) (i : ℕ) (xs : List A) {y : A} {rest : List A}
    → remove_at i xs ≡ some (y, rest)
    → All P xs
    → P y × All P rest
unfolding remove_at
remove_at-All P i [] h all = absurd (cc)
remove_at-All P zero (x ∷ xs) {y} {rest} h all =
    let e : x ≡ y = cc in let e' : xs ≡ rest = cc in (subst P e all.0, subst (All P) e' all.1)
remove_at-All P (suc i) (x ∷ xs) {y} {rest} h all = elim (Option-cases (remove_at i xs)) [
  | inl nothing ↦ let bad = rw (remove_at, nothing) at h in absurd (cc)
  | inr ((y', rest'), taken) ↦
      let found = rw (remove_at, taken) at h in
      let e : y' ≡ y = cc in
      let e' : x ∷ rest' ≡ rest = cc in
      let (is, all') = remove_at-All P i xs taken all.1 in
      (subst P e is, subst (All P) e' (all.0, all'))
]

module _ {Name : Type 0} where
  -- A column that is no root key.
  abbrev pub IsNoRoot : ColumnDef Name → Type 0
  IsNoRoot (ColumnDef.key k) = k.is_root ≡ false
  IsNoRoot _ = Unit

  mark_used-IsNoRoot :
      (c : ColumnDef Name) {c' : ColumnDef Name} → mark_used c ≡ Parsed.ok c' → IsNoRoot c'
  unfolding mark_used
  mark_used-IsNoRoot (ColumnDef.key k) h = absurd (cc)
  mark_used-IsNoRoot (ColumnDef.plain name used) {c'} h =
      let e : ColumnDef.plain name true ≡ c' = cc in subst IsNoRoot e tt
  mark_used-IsNoRoot (ColumnDef.relationship name uses used) {c'} h =
      let e : ColumnDef.relationship name uses true ≡ c' = cc in subst IsNoRoot e tt
  mark_used-IsNoRoot (ColumnDef.transient name) h = absurd (cc)
  mark_used-IsNoRoot (ColumnDef.transient_rel name) h = absurd (cc)

  abbrev pub AreNoRoots : Gathered Name → Type 0
  AreNoRoots g = All IsNoRoot g.columns × All IsNoRoot g.transient_columns

  gather-AreNoRoots :
      (c : ColumnDef Name) (g : Gathered Name) {g' : Gathered Name}
      → gather c g ≡ Parsed.ok g'
      → AreNoRoots g
      → AreNoRoots g'
  unfolding gather
  gather-AreNoRoots (ColumnDef.key k) g {g'} h all = elim (Option-cases g.key_column) [
    | inl first ↦
        let done = rw (gather, first) at h in
        let e : g.columns ≡ g'.columns = cc in
        let e' : g.transient_columns ≡ g'.transient_columns = cc in
        (subst (All IsNoRoot) e all.0, subst (All IsNoRoot) e' all.1)
    | inr (k', second) ↦ let bad = rw (gather, second) at h in absurd (cc)
  ]
  gather-AreNoRoots (ColumnDef.plain name used) g {g'} h all =
      let e : record g { columns = g.columns ++ ColumnDef.plain name used ∷ [] } ≡ g' = cc in
      subst AreNoRoots e (All-append IsNoRoot g.columns _ all.0 (tt, tt), all.1)
  gather-AreNoRoots (ColumnDef.relationship name uses used) g {g'} h all =
      let e : record g { columns = g.columns ++ ColumnDef.relationship name uses used ∷ [] } ≡ g' =
        cc in
      subst AreNoRoots e (All-append IsNoRoot g.columns _ all.0 (tt, tt), all.1)
  gather-AreNoRoots (ColumnDef.transient name) g {g'} h all =
      let e : record g { transient_columns = g.transient_columns ++ ColumnDef.transient name ∷ [] }
          ≡ g' =
        cc in
      subst AreNoRoots e (all.0, All-append IsNoRoot g.transient_columns _ all.1 (tt, tt))
  gather-AreNoRoots (ColumnDef.transient_rel name) g {g'} h all =
      let e : record g {
        transient_columns = g.transient_columns ++ ColumnDef.transient_rel name ∷ [];
      }
          ≡ g' =
        cc in
      subst AreNoRoots e (all.0, All-append IsNoRoot g.transient_columns _ all.1 (tt, tt))

  pub gather_all-AreNoRoots :
      (fields : List (ColumnDef Name)) (g : Gathered Name) {g' : Gathered Name}
      → gather_all fields g ≡ Parsed.ok g'
      → AreNoRoots g
      → AreNoRoots g'
  unfolding gather_all
  gather_all-AreNoRoots [] g {g'} h all = let e : g ≡ g' = cc in subst AreNoRoots e all
  gather_all-AreNoRoots (c ∷ fields) g h all =
      let (g1, first, rest) = >>=-eq-ok (gather c g) (gather_all fields) h in
      gather_all-AreNoRoots fields g1 rest (gather-AreNoRoots c g first all)

module _ {Name : Type 0} (names : Eq Name) where
  remove_both-All :
      (P : ColumnDef Name → Type 0) (used_idx dep_idx : ℕ) (columns : List (ColumnDef Name))
      {used using : ColumnDef Name} {rest : List (ColumnDef Name)}
      → remove_both names used_idx dep_idx columns ≡ some (used, using, rest)
      → All P columns
      → P using × All P rest
  unfolding remove_both
  remove_both-All P used_idx dep_idx columns {used} {using} {rest} h all =
      elim (Bool-cases (ltb dep_idx used_idx)) [
        | inl later ↦ elim (Option-cases (remove_at used_idx columns)) [
          | inl nothing ↦ let bad = rw (remove_both, later, nothing) at h in absurd (cc)
          | inr ((x, left), first) ↦ elim (Option-cases (remove_at dep_idx left)) [
            | inl nothing ↦ let bad = rw (remove_both, later, first, nothing) at h in absurd (cc)
            | inr ((y, left'), second) ↦
                let done = rw (remove_both, later, first, second) at h in
                let e : y ≡ using = cc in
                let e' : left' ≡ rest = cc in
                let (_, all') = remove_at-All P used_idx columns first all in
                let (is, all'') = remove_at-All P dep_idx left second all' in
                (subst P e is, subst (All P) e' all'')
          ]
        ]
        | inr earlier ↦ elim (Option-cases (remove_at dep_idx columns)) [
          | inl nothing ↦ let bad = rw (remove_both, earlier, nothing) at h in absurd (cc)
          | inr ((y, left), first) ↦ elim (Option-cases (remove_at used_idx left)) [
            | inl nothing ↦ let bad = rw (remove_both, earlier, first, nothing) at h in absurd (cc)
            | inr ((x, left'), second) ↦
                let done = rw (remove_both, earlier, first, second) at h in
                let e : y ≡ using = cc in
                let e' : left' ≡ rest = cc in
                let (is, all') = remove_at-All P dep_idx columns first all in
                let (_, all'') = remove_at-All P used_idx left second all' in
                (subst P e is, subst (All P) e' all'')
          ]
        ]
      ]

  pub take_and_chain-IsNoRoot :
      (columns : List (ColumnDef Name)) {out : List (ColumnDef Name)}
      → take_and_chain_relation_with_plain names columns ≡ Parsed.ok out
      → All IsNoRoot columns
      → All IsNoRoot out
  unfolding take_and_chain_relation_with_plain
  take_and_chain-IsNoRoot columns {out} h all =
      elim (Option-cases (find_dependency_from 0 columns)) [
        | inl nothing ↦
            let done = rw (take_and_chain_relation_with_plain, nothing) at h in
            let e : columns ≡ out = cc in subst (All IsNoRoot) e all
        | inr ((dep_idx, uses), found) ↦
            elim (Option-cases (find_used_from names 0 columns uses dep_idx)) [
              | inl nothing ↦
                  let bad = rw (take_and_chain_relation_with_plain, found, nothing) at h in
                  absurd (cc)
              | inr (used_idx, found') ↦
                  elim (Option-cases (remove_both names used_idx dep_idx columns)) [
                    | inl nothing ↦
                        let bad =
                          rw (take_and_chain_relation_with_plain, found, found', nothing) at h in
                        absurd (cc)
                    | inr ((used, using, rest), taken) ↦
                        let (is, all') =
                          remove_both-All IsNoRoot used_idx dep_idx columns taken all in
                        let done =
                          rw (take_and_chain_relation_with_plain, found, found', taken) at h in
                        let (used', marked, e) =
                          >>=-eq-ok (mark_used used)
                            (λ used'. Parsed.ok ((rest ++ used' ∷ []) ++ using ∷ [])) done in
                        let e' : (rest ++ used' ∷ []) ++ using ∷ [] ≡ out = cc in
                        subst (All IsNoRoot) e' (
                          All-append IsNoRoot (rest ++ used' ∷ []) _
                            (All-append IsNoRoot rest _ all' (mark_used-IsNoRoot used marked, tt))
                            (is, tt))
                  ]
            ]
      ]
