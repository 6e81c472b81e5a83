-- ===== src/Macros/Columns/KeyPlace.antt =====
-- Where the key of an entity stands among its columns.
use redbit.Prelude.{
  ◌≡◌, sym, ap, subst, ◌∙◌, true, false, not, none, some, List, [], ◌∷◌, ◌++◌, if◌then◌else◌,
  Bool-cases, Option-cases, inl, inr,
}
use redbit.Prelude.Equality.{Eq}
use redbit.Prelude.Collect.{All, All-append}
use redbit.Macros.Columns.{
  KeyDef, ColumnDef, SynError, Parsed, ◌>>=◌, take_and_chain_relation_with_plain, Gathered,
  gather_all, get_field_macros,
}
use redbit.Macros.Columns.Rootless.{
  >>=-eq-ok, IsNoRoot, AreNoRoots, gather_all-AreNoRoots, take_and_chain-IsNoRoot,
}

-- A root key is the last column and the only root key; any other key leaves none.
pub data KeyPlace {Name : Type 0} (k : KeyDef Name) (columns : List (ColumnDef Name)) : Type 0 where
  last :
      (rest : List (ColumnDef Name))
      → k.is_root ≡ true
      → columns ≡ rest ++ ColumnDef.key k ∷ []
      → All IsNoRoot rest
      → KeyPlace k columns
  nowhere : k.is_root ≡ false → All IsNoRoot columns → KeyPlace k columns

module _ {Name : Type 0} (names : Eq Name) where
  arrange-KeyPlace :
      (k : KeyDef Name) (g : Gathered Name) (columns : List (ColumnDef Name))
      → take_and_chain_relation_with_plain names
          (if not k.is_root then ColumnDef.key k ∷ g.columns else g.columns)
        ≡ Parsed.ok columns
      → AreNoRoots g
      → KeyPlace k (
          if k.is_root
          then (columns ++ g.transient_columns) ++ ColumnDef.key k ∷ []
          else columns ++ g.transient_columns)
  arrange-KeyPlace k g columns chained all = elim (Bool-cases k.is_root) [
    | inl root ↦
        let from : take_and_chain_relation_with_plain names g.columns ≡ Parsed.ok columns =
          ap
            (λ b.
              take_and_chain_relation_with_plain names
                (if not b then ColumnDef.key k ∷ g.columns else g.columns))
            (sym root)
          ∙ chained in
        let clear =
          All-append IsNoRoot columns g.transient_columns
            (take_and_chain-IsNoRoot names g.columns from all.0) all.1 in
        KeyPlace.last (columns ++ g.transient_columns) root
          (ap
            (λ b.
              if b
              then (columns ++ g.transient_columns) ++ ColumnDef.key k ∷ []
              else columns ++ g.transient_columns)
            root)
          clear
    | inr other ↦
        let from : take_and_chain_relation_with_plain names (ColumnDef.key k ∷ g.columns)
            ≡ Parsed.ok columns =
          ap
            (λ b.
              take_and_chain_relation_with_plain names
                (if not b then ColumnDef.key k ∷ g.columns else g.columns))
            (sym other)
          ∙ chained in
        let clear =
          All-append IsNoRoot columns g.transient_columns
            (take_and_chain-IsNoRoot names (ColumnDef.key k ∷ g.columns) from (other, all.0))
            all.1 in
        KeyPlace.nowhere other (
          subst (All IsNoRoot)
            (ap
              (λ b.
                if b
                then (columns ++ g.transient_columns) ++ ColumnDef.key k ∷ []
                else columns ++ g.transient_columns)
              (sym other))
            clear)
  ]

  -- Of the columns of an entity, in the order that the macros give them, a root key is the last, and no
  -- other column is a root key; an entity whose key is not a root key has none.
  pub get_field_macros-KeyPlace :
      (fields : List (ColumnDef Name)) (k : KeyDef Name) (columns : List (ColumnDef Name))
      → get_field_macros names fields ≡ Parsed.ok (k, columns)
      → KeyPlace k columns
  unfolding get_field_macros
  get_field_macros-KeyPlace fields k columns h =
      let (g, gathered, rest) =
        >>=-eq-ok
          (gather_all fields (record { key_column = none; columns = []; transient_columns = [] }))
          (λ g. elim g.key_column [
            | none ↦ Parsed.err SynError.no_key
            | some k ↦ do
              let first = if not k.is_root then ColumnDef.key k ∷ g.columns else g.columns
              columns ← take_and_chain_relation_with_plain names first
              let all = columns ++ g.transient_columns
              Parsed.ok (k, (if k.is_root then all ++ ColumnDef.key k ∷ [] else all))
          ])
          h in
      let clear =
        gather_all-AreNoRoots fields
          (record { key_column = none; columns = []; transient_columns = [] }) gathered (tt, tt) in
      elim (Option-cases g.key_column) [
        | inl nothing ↦ let bad = rw (nothing) at rest in absurd (cc)
        | inr (k', found) ↦
            let done = rw (found) at rest in
            let (columns', chained, e) =
              >>=-eq-ok
                (take_and_chain_relation_with_plain names
                  (if not k'.is_root then ColumnDef.key k' ∷ g.columns else g.columns))
                (λ columns'. Parsed.ok (
                  k',
                  (if k'.is_root
                      then (columns' ++ g.transient_columns) ++ ColumnDef.key k' ∷ []
                      else columns' ++ g.transient_columns),
                ))
                done in
            let same : k' ≡ k = cc in
            let out : (if k'.is_root
                  then (columns' ++ g.transient_columns) ++ ColumnDef.key k' ∷ []
                  else columns' ++ g.transient_columns)
                ≡ columns =
              cc in
            subst (λ k''. KeyPlace k'' columns) same
              (subst (KeyPlace k') out (arrange-KeyPlace k' g columns' chained clear))
      ]
