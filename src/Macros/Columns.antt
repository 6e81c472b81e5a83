-- ===== src/Macros/Columns.antt =====
-- macros/src/field_parser.rs: `get_field_macros`, which orders the columns of an entity, from the
-- columns that `parse_entity_field` makes of its fields. Of a column its kind, its name, the column
-- that it is written from and the mark that another is; `none` of an index is the panic of a vector.
pub mod Rootless
pub mod KeyPlace
mod Tests
use redbit.Prelude.{
  ℕ, zero, suc, ◌+◌, Bool, true, false, not, Option, none, some, List, [], ◌∷◌, ◌++◌, if◌then◌else◌,
  ltb, ◌==◌,
}
use redbit.Prelude.Equality.{Eq}

-- `Pk` is a root key, `Fk` is not.
pub record KeyDef (Name : Type 0) : Type 0 where
  pub is_root : Bool
  pub name : Name

pub data ColumnDef (Name : Type 0) : Type 0 where
  key : KeyDef Name → ColumnDef Name
  plain : Name → Bool → ColumnDef Name
  relationship : Name → Option Name → Bool → ColumnDef Name
  transient : Name → ColumnDef Name
  transient_rel : Name → ColumnDef Name

pub data SynError : Type 0 where
  multiple_keys : SynError
  no_key : SynError
  unsatisfied : SynError
  not_a_dependee : SynError

pub data Parsed (A : Type 0) : Type 0 where
  ok : A → Parsed A
  err : SynError → Parsed A
  panic : Parsed A

infixl 5 ◌>>=◌
abbrev pub ◌>>=◌ : {A B : Type 0} → Parsed A → (A → Parsed B) → Parsed B
Parsed.ok a >>= f = f a
Parsed.err e >>= f = Parsed.err e
Parsed.panic >>= f = Parsed.panic

-- `Vec::remove`
unfoldable pub remove_at : {A : Type 0} → ℕ → List A → Option (A × List A)
remove_at i [] = none
remove_at zero (x ∷ xs) = some (x, xs)
remove_at (suc i) (x ∷ xs) = elim (remove_at i xs) [
  | none ↦ none
  | some (y, rest) ↦ some (y, x ∷ rest)
]

module _ {Name : Type 0} where
  unfoldable pub extract_dependency : ColumnDef Name → Option Name
  extract_dependency (ColumnDef.relationship _ uses _) = uses
  extract_dependency _ = none

  unfoldable pub find_dependency_from : ℕ → List (ColumnDef Name) → Option (ℕ × Name)
  find_dependency_from i [] = none
  find_dependency_from i (c ∷ cols) = elim (extract_dependency c) [
    | none ↦ find_dependency_from (suc i) cols
    | some uses ↦ some (i, uses)
  ]

  -- The mark `Used` on a column that another is written from.
  unfoldable pub mark_used : ColumnDef Name → Parsed (ColumnDef Name)
  mark_used (ColumnDef.plain name _) = Parsed.ok (ColumnDef.plain name true)
  mark_used (ColumnDef.relationship name uses _) = Parsed.ok (ColumnDef.relationship name uses true)
  mark_used _ = Parsed.err SynError.not_a_dependee

module _ {Name : Type 0} (names : Eq Name) where
  abbrev pub is_called : Name → ColumnDef Name → Bool
  is_called uses (ColumnDef.plain name _) = names.same name uses
  is_called uses (ColumnDef.relationship name _ _) = names.same name uses
  is_called uses _ = false

  unfoldable pub find_used_from : ℕ → List (ColumnDef Name) → Name → ℕ → Option ℕ
  find_used_from i [] uses skip_idx = none
  find_used_from i (c ∷ cols) uses skip_idx =
      let rest = find_used_from (suc i) cols uses skip_idx in
      if i == skip_idx then rest else if is_called uses c then some i else rest

  -- Both columns are taken out, the later one first, whichever it is.
  unfoldable pub remove_both :
      ℕ
      → ℕ
      → List (ColumnDef Name)
      → Option (ColumnDef Name × ColumnDef Name × List (ColumnDef Name))
  remove_both used_idx dep_idx columns =
      if ltb dep_idx used_idx
      then elim (remove_at used_idx columns) [
        | none ↦ none
        | some (used, rest) ↦ elim (remove_at dep_idx rest) [
          | none ↦ none
          | some (using, rest') ↦ some (used, using, rest')
        ]
      ]
      else elim (remove_at dep_idx columns) [
        | none ↦ none
        | some (using, rest) ↦ elim (remove_at used_idx rest) [
          | none ↦ none
          | some (used, rest') ↦ some (used, using, rest')
        ]
      ]

  unfoldable pub take_and_chain_relation_with_plain :
      List (ColumnDef Name) → Parsed (List (ColumnDef Name))
  take_and_chain_relation_with_plain columns = elim (find_dependency_from 0 columns) [
    | none ↦ Parsed.ok columns
    | some (dep_idx, uses) ↦ elim (find_used_from 0 columns uses dep_idx) [
      | none ↦ Parsed.err SynError.unsatisfied
      | some used_idx ↦ elim (remove_both used_idx dep_idx columns) [
        | none ↦ Parsed.panic
        | some (used, using, rest) ↦ do
          used' ← mark_used used
          Parsed.ok ((rest ++ used' ∷ []) ++ using ∷ [])
      ]
    ]
  ]

-- What the loop over the fields has gathered.
pub record Gathered (Name : Type 0) : Type 0 where
  pub key_column : Option (KeyDef Name)
  pub columns : List (ColumnDef Name)
  pub transient_columns : List (ColumnDef Name)

module _ {Name : Type 0} where
  unfoldable pub gather : ColumnDef Name → Gathered Name → Parsed (Gathered Name)
  gather (ColumnDef.key k) g = elim g.key_column [
    | some _ ↦ Parsed.err SynError.multiple_keys
    | none ↦ Parsed.ok (record g { key_column = some k })
  ]
  gather (ColumnDef.transient name) g =
      Parsed.ok
        (record g { transient_columns = g.transient_columns ++ ColumnDef.transient name ∷ [] })
  gather (ColumnDef.transient_rel name) g =
      Parsed.ok
        (record g { transient_columns = g.transient_columns ++ ColumnDef.transient_rel name ∷ [] })
  gather (ColumnDef.plain name used) g =
      Parsed.ok (record g { columns = g.columns ++ ColumnDef.plain name used ∷ [] })
  gather (ColumnDef.relationship name uses used) g =
      Parsed.ok (record g { columns = g.columns ++ ColumnDef.relationship name uses used ∷ [] })

  unfoldable pub gather_all : List (ColumnDef Name) → Gathered Name → Parsed (Gathered Name)
  gather_all [] g = Parsed.ok g
  gather_all (c ∷ fields) g = do g' ← gather c g; gather_all fields g'

module _ {Name : Type 0} (names : Eq Name) where
  unfoldable pub get_field_macros :
      List (ColumnDef Name) → Parsed (KeyDef Name × List (ColumnDef Name))
  get_field_macros fields = do
    g ← gather_all fields (record { key_column = none; columns = []; transient_columns = [] })
    elim g.key_column [
      | none ↦ Parsed.err SynError.no_key
      | some k ↦ do
        let first = if not k.is_root then ColumnDef.key k ∷ g.columns else g.columns
        columns ← take_and_chain_relation_with_plain names first
        let all = columns ++ g.transient_columns
        Parsed.ok (k, (if k.is_root then all ++ ColumnDef.key k ∷ [] else all))
    ]
