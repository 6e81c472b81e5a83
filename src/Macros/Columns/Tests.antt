-- ===== src/Macros/Columns/Tests.antt =====
-- An entity whose root key comes first, with a relationship that is written from the column before it.
use redbit.Prelude.{ℕ, ◌≡◌, refl, false, true, some, List, [], ◌∷◌}
use redbit.Prelude.Equality.{nat_eq}
use redbit.Macros.Columns.{
  KeyDef, ColumnDef, SynError, Parsed, remove_at, extract_dependency, find_dependency_from,
  mark_used, find_used_from, remove_both, take_and_chain_relation_with_plain, gather, gather_all,
  get_field_macros,
}
use redbit.Macros.Columns.KeyPlace.{KeyPlace, get_field_macros-KeyPlace}

abbrev root_key : KeyDef ℕ
root_key = record { is_root = true; name = 0 }

abbrev fields : List (ColumnDef ℕ)
fields =
    ColumnDef.key root_key
    ∷ ColumnDef.relationship 1 (some 2) false
    ∷ ColumnDef.transient 5
    ∷ ColumnDef.plain 2 false
    ∷ ColumnDef.plain 3 false
    ∷ []

abbrev ordered : List (ColumnDef ℕ)
ordered =
    ColumnDef.plain 3 false
    ∷ ColumnDef.plain 2 true
    ∷ ColumnDef.relationship 1 (some 2) false
    ∷ ColumnDef.transient 5
    ∷ ColumnDef.key root_key
    ∷ []

columns_in_order : get_field_macros nat_eq fields ≡ Parsed.ok (root_key, ordered)
unfolding remove_at extract_dependency find_dependency_from mark_used find_used_from remove_both
    take_and_chain_relation_with_plain gather gather_all get_field_macros
columns_in_order = refl

two_keys :
    get_field_macros nat_eq (ColumnDef.key root_key ∷ fields) ≡ Parsed.err SynError.multiple_keys
unfolding remove_at extract_dependency find_dependency_from mark_used find_used_from remove_both
    take_and_chain_relation_with_plain gather gather_all get_field_macros
two_keys = refl

get_field_macros-KeyPlace_example : KeyPlace root_key ordered
get_field_macros-KeyPlace_example =
    get_field_macros-KeyPlace nat_eq fields root_key ordered columns_in_order
