-- ===== src/Storage/Redb.antt =====
-- What the storage layer uses of the crates redb and lru: a table, a multimap table and an LRU
-- cache over unknown states, and beside each what their documentation says of its operations while
-- there is no I/O error. `none` as the result of a redb operation is a storage error.
pub mod Memory
pub mod Views
use redbit.Prelude.{
  ◌≡◌, ◌⊎◌, Bool, true, false, ◌&&◌, ◌||◌, Option, none, some, List, [], ◌∷◌, if◌then◌else◌,
}
use redbit.Prelude.Equality.{Eq}

-- `redb::Table`
pub record Table (K V : Type 0) : Type 1 where
  pub State : Type 0
  pub get : State → K → Option (Option V)
  pub insert : State → K → V → Option State
  pub remove : State → K → Option (State × Option V)

-- `redb::MultimapTable`, whose `get` returns the values of a key in their order.
pub record Multimap (K V : Type 0) : Type 1 where
  pub State : Type 0
  pub get : State → K → Option (List V)
  pub insert : State → K → V → Option State
  pub remove : State → K → V → Option (State × Bool)

-- `lru::LruCache`
pub record Lru (K A : Type 0) : Type 1 where
  pub State : Type 0
  pub get : State → K → State × Option A
  pub put : State → K → A → State
  pub pop : State → K → State

-- A map at which one key has a new value, and one at which it has none.
pub record Updated {K V : Type 0} (eq : Eq K) (f : K → Option V) (k : K) (v : V) (f' : K → Option V)
    : Type 0 where
  pub at : (j : K) → f' j ≡ (if eq.same k j then some v else f j)

pub record Removed {K V : Type 0} (eq : Eq K) (f : K → Option V) (k : K) (f' : K → Option V)
    : Type 0 where
  pub at : (j : K) → f' j ≡ (if eq.same k j then none else f j)

-- A relation with one more pair, and with one less.
pub record Added {K V : Type 0} (eq : Eq K) (eq' : Eq V) (r : K → V → Bool) (k : K) (v : V)
    (r' : K → V → Bool) : Type 0 where
  pub at : (j : K) (w : V) → r' j w ≡ (if eq.same k j && eq'.same v w then true else r j w)

pub record Dropped {K V : Type 0} (eq : Eq K) (eq' : Eq V) (r : K → V → Bool) (k : K) (v : V)
    (r' : K → V → Bool) : Type 0 where
  pub at : (j : K) (w : V) → r' j w ≡ (if eq.same k j && eq'.same v w then false else r j w)

-- A table that is a map.
pub record IsMap {K V : Type 0} (eq : Eq K) (T : Table K V) : Type 0 where
  pub view : T.State → K → Option V
  pub get_ok : (s : T.State) (k : K) → T.get s k ≡ some (view s k)
  pub insert_ok :
      (s : T.State) (k : K) (v : V)
      → (s' : T.State) × (T.insert s k v ≡ some s') × Updated eq (view s) k v (view s')
  pub remove_ok :
      (s : T.State) (k : K)
      → (s' : T.State) × (T.remove s k ≡ some (s', view s k)) × Removed eq (view s) k (view s')

-- Whether a list holds a value.
abbrev pub contains : {V : Type 0} → Eq V → List V → V → Bool
contains eq [] v = false
contains eq (w ∷ ws) v = eq.same w v || contains eq ws v

-- A multimap table that is a relation.
pub record IsRelation {K V : Type 0} (eq : Eq K) (eq' : Eq V) (T : Multimap K V) : Type 0 where
  pub values : T.State → K → List V
  pub get_ok : (s : T.State) (k : K) → T.get s k ≡ some (values s k)
  pub insert_ok :
      (s : T.State) (k : K) (v : V)
      → (s' : T.State) × (T.insert s k v ≡ some s')
        × Added eq eq' (λ j. contains eq' (values s j)) k v (λ j. contains eq' (values s' j))
  pub remove_ok :
      (s : T.State) (k : K) (v : V)
      → (s' : T.State) × (T.remove s k v ≡ some (s', contains eq' (values s k) v))
        × Dropped eq eq' (λ j. contains eq' (values s j)) k v (λ j. contains eq' (values s' j))

-- A cache that may forget entries, but never has any that was not put in.
pub record IsCache {K A : Type 0} (eq : Eq K) (C : Lru K A) : Type 0 where
  pub view : C.State → K → Option A
  pub get_result : (c : C.State) (k : K) → (C.get c k).1 ≡ view c k
  pub get_state : (c : C.State) (k j : K) → view (C.get c k).0 j ≡ view c j
  pub put_view :
      (c : C.State) (k : K) (a : A) (j : K) (b : A)
      → view (C.put c k a) j ≡ some b
      → ((k ≡ j) × (a ≡ b)) ⊎ (view c j ≡ some b)
  pub pop_view :
      (c : C.State) (k j : K) (b : A)
      → view (C.pop c k) j ≡ some b
      → (eq.same k j ≡ false) × (view c j ≡ some b)
