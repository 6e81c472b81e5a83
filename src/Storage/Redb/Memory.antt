-- ===== src/Storage/Redb/Memory.antt =====
-- Tables and a cache in memory that meet what is assumed of redb and lru.
use redbit.Prelude.{
  ℕ, ◌≡◌, ◌⊎◌, inl, inr, refl, sym, ap, ◌∙◌, Bool-cases, Bool, true, false, ◌&&◌, none, some, List,
  [], ◌∷◌, if◌then◌else◌, ◌==◌, ltb, arith, ==_iff,
}
use mathlib.Core.Option.{some_inj}
use redbit.Prelude.Assoc.{get, put, without, get-put, get-without}
use redbit.Prelude.Equality.{nat_eq}
use redbit.Storage.Redb.{Table, Multimap, Lru, IsMap, IsRelation, IsCache, contains}

abbrev pub memory_table : (V : Type 0) → Table ℕ V
memory_table V = record {
  State = List (ℕ × V);
  get = λ s k. some (get k s);
  insert = λ s k v. some (put k v s);
  remove = λ s k. some (without k s, get k s);
}

abbrev pub memory_table-IsMap : (V : Type 0) → IsMap nat_eq (memory_table V)
memory_table-IsMap V = record {
  view = λ s k. get k s;
  get_ok = λ s k. refl;
  insert_ok = λ s k v. (put k v s, refl, record { at = λ j. get-put k j v s });
  remove_ok = λ s k. (without k s, refl, record { at = λ j. get-without k j s });
}

-- The values of a key are kept in their order.
abbrev pub add_value : ℕ → List ℕ → List ℕ
add_value v [] = v ∷ []
add_value v (w ∷ ws) =
    let rest = add_value v ws in if ltb v w then v ∷ w ∷ ws else if v == w then w ∷ ws else w ∷ rest

abbrev pub drop_value : ℕ → List ℕ → List ℕ
drop_value v [] = []
drop_value v (w ∷ ws) = let rest = drop_value v ws in if w == v then rest else w ∷ rest

pub contains-add_value :
    (v : ℕ) (ws : List ℕ) (u : ℕ)
    → contains nat_eq (add_value v ws) u ≡ (if v == u then true else contains nat_eq ws u)
contains-add_value v [] u = ground arith
contains-add_value v (w ∷ ws) u = ground (arith, contains-add_value v ws u)

pub contains-drop_value :
    (v : ℕ) (ws : List ℕ) (u : ℕ)
    → contains nat_eq (drop_value v ws) u ≡ (if v == u then false else contains nat_eq ws u)
contains-drop_value v [] u = ground arith
contains-drop_value v (w ∷ ws) u = ground (arith, contains-drop_value v ws u)

abbrev pub values_of : List (ℕ × List ℕ) → ℕ → List ℕ
values_of s k = elim (get k s) [ none ↦ [] | some vs ↦ vs ]

abbrev pub memory_multimap : Multimap ℕ ℕ
memory_multimap = record {
  State = List (ℕ × List ℕ);
  get = λ s k. some (values_of s k);
  insert = λ s k v. some (put k (add_value v (values_of s k)) s);
  remove =
      λ s k v. some (put k (drop_value v (values_of s k)) s, contains nat_eq (values_of s k) v);
}

pub values_of-put :
    (s : List (ℕ × List ℕ)) (k j : ℕ) (vs : List ℕ)
    → values_of (put k vs s) j ≡ (if k == j then vs else values_of s j)
values_of-put s k j vs = ground (arith, get-put k j vs s)

-- Writing the values of a key changes what that key has.
pub put_view :
    (s : List (ℕ × List ℕ)) (k : ℕ) (vs : List ℕ) (v w j : ℕ) (bit : Bool)
    → contains nat_eq vs w ≡ (if v == w then bit else contains nat_eq (values_of s k) w)
    → contains nat_eq (values_of (put k vs s) j) w
      ≡ (if k == j && v == w then bit else contains nat_eq (values_of s j) w)
put_view s k vs v w j bit h = elim (Bool-cases (k == j)) [
  | inl here ↦
      rw (values_of-put s k j vs, here)
        (h
          ∙ ap (λ (i : ℕ). if v == w then bit else contains nat_eq (values_of s i) w)
              ((==_iff k j).0 here))
  | inr other ↦ rw (values_of-put s k j vs, other) refl
]

abbrev pub memory_multimap-IsRelation : IsRelation nat_eq nat_eq memory_multimap
memory_multimap-IsRelation = record {
  values = values_of;
  get_ok = λ s k. refl;
  insert_ok = λ s k v. (
    put k (add_value v (values_of s k)) s,
    refl,
    record {
      at = λ j w.
          put_view s k (add_value v (values_of s k)) v w j true
            (contains-add_value v (values_of s k) w);
    },
  );
  remove_ok = λ s k v. (
    put k (drop_value v (values_of s k)) s,
    refl,
    record {
      at = λ j w.
          put_view s k (drop_value v (values_of s k)) v w j false
            (contains-drop_value v (values_of s k) w);
    },
  );
}

-- A cache that keeps everything.
abbrev pub memory_cache : Lru ℕ ℕ
memory_cache = record {
  State = List (ℕ × ℕ);
  get = λ c k. (c, get k c);
  put = λ c k a. put k a c;
  pop = λ c k. without k c;
}

pub cache_put :
    (c : List (ℕ × ℕ)) (k a j b : ℕ)
    → get j (put k a c) ≡ some b
    → ((k ≡ j) × (a ≡ b)) ⊎ (get j c ≡ some b)
cache_put c k a j b h = elim (Bool-cases (k == j)) [
  | inl here ↦ inl (
    (==_iff k j).0 here,
    some_inj.0
        (sym (ap (λ (t : Bool). if t then some a else get j c) here) ∙ sym (get-put k j a c) ∙ h),
  )
  | inr other ↦
      inr (sym (ap (λ (t : Bool). if t then some a else get j c) other) ∙ sym (get-put k j a c) ∙ h)
]

pub cache_pop :
    (c : List (ℕ × ℕ)) (k j b : ℕ)
    → get j (without k c) ≡ some b
    → ((k == j) ≡ false) × (get j c ≡ some b)
cache_pop c k j b h = ground (arith, get-without k j c)

abbrev pub memory_cache-IsCache : IsCache nat_eq memory_cache
memory_cache-IsCache = record {
  view = λ c k. get k c;
  get_result = λ c k. refl;
  get_state = λ c k j. refl;
  put_view = λ c k a j b h. cache_put c k a j b h;
  pop_view = cache_pop;
}
