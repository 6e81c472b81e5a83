-- ===== src/Storage/DictTable/Reading.antt =====
-- What the look-ups of a dictionary return.
use redbit.Prelude.{
  ◌≡◌, ◌≢◌, ◌↔◌, ◌⊎◌, inl, inr, refl, sym, ap, ◌∙◌, true, none, some, Option-cases, List,
}
use mathlib.Core.Option.{some_inj, none-ne-some}
use mathlib.Core.List.Memᴰ
use redbit.Storage.Redb.{contains}
use redbit.Storage.PlainTable.{◌>>=◌}
use redbit.Storage.DictTable.{DictStore, DictTable, get_value, dict_keys}
use redbit.Storage.DictTable.Operations.{IsLawful, birth, value_of, birth_of, value, IsDict}

module _ {K V CK : Type 0} {S : DictStore K V CK} (L : IsLawful S) where
  -- While redb has no error, `get_value` returns the value of a key, if it has one.
  pub get_value_lem : (k : K) (t : DictTable S) → get_value S k t ≡ some (value L t k)
  unfolding get_value
  get_value_lem k t = elim (Option-cases (birth L t k)) [
    | inl absent ↦ rw (get_value, L.births.get_ok t.dict_pk_by_key k, absent) refl
    | inr (b, at) ↦
        rw (get_value, L.births.get_ok t.dict_pk_by_key k, at)
          (L.stored.get_ok t.value_by_dict_pk b)
  ]

  -- A key has a value exactly when it is listed for the birth id of the value.
  listed_iff :
      (v : V) (b k : K) (t : DictTable S)
      → IsDict L t
      → birth_of L t v ≡ some b
      → (contains L.keys (L.members.values t.dict_pk_to_keys b) k ≡ true) ↔ (value L t k ≡ some v)
  listed_iff v b k t (ok, all) born = (
    λ l. rw (ok.listed k b l) (ok.born v b born),
    λ h. elim (Option-cases (birth L t k)) [
      | inl absent ↦ absurd (none-ne-some v (sym (ap (λ x. x >>= value_of L t) absent) ∙ h))
      | inr (c, at) ↦
          let cb : c ≡ b =
            some_inj.0 (sym (all.found c v (sym (ap (λ x. x >>= value_of L t) at) ∙ h)) ∙ born) in
          elim (ok.keyed k b (at ∙ ap some cb)) [ inl l ↦ l | inr m ↦ absurd (Memᴰ.not-nil m) ]
    ],
  )

  -- `dict_keys` of a dictionary returns the keys that have the value, or `none`, and then no key has
  -- it.
  dict_keys_lem :
      (v : V) (t : DictTable S)
      → IsDict L t
      → ((dict_keys S v t ≡ some none) × ((k : K) → value L t k ≢ some v))
        ⊎ ((ks : List K) × (dict_keys S v t ≡ some (some ks))
            × ((k : K) → (contains L.keys ks k ≡ true) ↔ (value L t k ≡ some v)))
  unfolding dict_keys
  dict_keys_lem v t (ok, all) = elim (Option-cases (birth_of L t v)) [
    | inl absent ↦ inl (
      rw (dict_keys, L.ids.get_ok t.value_to_dict_pk v, absent) refl,
      λ k h. elim (Option-cases (birth L t k)) [
        | inl no_birth ↦ none-ne-some v (sym (ap (λ x. x >>= value_of L t) no_birth) ∙ h)
        | inr (c, at) ↦
            none-ne-some c (sym absent ∙ all.found c v (sym (ap (λ x. x >>= value_of L t) at) ∙ h))
      ],
    )
    | inr (b, born) ↦ inr (
      L.members.values t.dict_pk_to_keys b,
      rw (dict_keys, L.ids.get_ok t.value_to_dict_pk v, born, L.members.get_ok t.dict_pk_to_keys b)
          refl,
      λ k. listed_iff v b k t (ok, all) born,
    )
  ]
