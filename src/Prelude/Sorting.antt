-- ===== src/Prelude/Sorting.antt =====
-- `slice::sort_by` of the standard library, a stable sort, by a key of the elements.
use redbit.Prelude.{ℕ, ◌+◌, ◌≡◌, refl, true, false, List, [], ◌∷◌, total, if◌then◌else◌, arith}
use redbit.Prelude.Collect.{All}
use mathlib.Core.List.{Memᴰ}
use redbit.Prelude.Order.{KeyOrder, is_greater}

module _ {A B : Type 0} (key : A → B) (order : KeyOrder B) where
  abbrev insert_by : A → List A → List A
  insert_by p [] = p ∷ []
  insert_by p (q ∷ xs) =
      let rest = insert_by p xs in
      if is_greater (order.cmp (key p) (key q)) then q ∷ rest else p ∷ q ∷ xs

  unfoldable pub sort_by : List A → List A
  sort_by [] = []
  sort_by (p ∷ xs) = insert_by p (sort_by xs)

module _ {A B : Type 0} (key : A → B) (order : KeyOrder B) where
  mem_of_insert_by : {x p : A} (xs : List A) → Memᴰ x (insert_by key order p xs) → Memᴰ x (p ∷ xs)
  mem_of_insert_by [] m = m
  mem_of_insert_by {x} {p} (q ∷ xs) m =
      elim (is_greater (order.cmp (key p) (key q)))
          as (λ g.
            Memᴰ x (if g then q ∷ insert_by key order p xs else p ∷ q ∷ xs) → Memᴰ x (p ∷ q ∷ xs)) [
              | true ↦ λ m'. elim m' [
                | Memᴰ.head e ↦ Memᴰ.tail (Memᴰ.head e)
                | Memᴰ.tail below ↦ elim (mem_of_insert_by xs below) [
                  | Memᴰ.head e ↦ Memᴰ.head e
                  | Memᴰ.tail old ↦ Memᴰ.tail (Memᴰ.tail old)
                ]
              ]
              | false ↦ λ m'. m'
            ]
        m

  mem-insert_by : {x p : A} (xs : List A) → Memᴰ x (p ∷ xs) → Memᴰ x (insert_by key order p xs)
  mem-insert_by [] m = m
  mem-insert_by {x} {p} (q ∷ xs) m =
      elim (is_greater (order.cmp (key p) (key q)))
        as (λ g. Memᴰ x (if g then q ∷ insert_by key order p xs else p ∷ q ∷ xs)) [
          | true ↦ elim m [
            | Memᴰ.head e ↦ Memᴰ.tail (mem-insert_by xs (Memᴰ.head e))
            | Memᴰ.tail (Memᴰ.head e) ↦ Memᴰ.head e
            | Memᴰ.tail (Memᴰ.tail old) ↦ Memᴰ.tail (mem-insert_by xs (Memᴰ.tail old))
          ]
          | false ↦ m
        ]

  pub mem_of_sort_by : {x : A} (xs : List A) → Memᴰ x (sort_by key order xs) → Memᴰ x xs
  unfolding sort_by
  mem_of_sort_by [] m = m
  mem_of_sort_by (p ∷ xs) m = elim (mem_of_insert_by (sort_by key order xs) m) [
    | Memᴰ.head e ↦ Memᴰ.head e
    | Memᴰ.tail old ↦ Memᴰ.tail (mem_of_sort_by xs old)
  ]

  pub mem-sort_by : {x : A} (xs : List A) → Memᴰ x xs → Memᴰ x (sort_by key order xs)
  unfolding sort_by
  mem-sort_by [] m = m
  mem-sort_by (p ∷ xs) m =
      mem-insert_by (sort_by key order xs)
        (elim m [ Memᴰ.head e ↦ Memᴰ.head e | Memᴰ.tail old ↦ Memᴰ.tail (mem-sort_by xs old) ])

module _ {A B : Type 0} (key : A → B) (order : KeyOrder B) where
  total-insert_by :
      (size : A → ℕ) (p : A) (xs : List A)
      → total size (insert_by key order p xs) ≡ size p + total size xs
  total-insert_by size p [] = refl
  total-insert_by size p (q ∷ xs) =
      elim (is_greater (order.cmp (key p) (key q)))
        as (λ g.
          total size (if g then q ∷ insert_by key order p xs else p ∷ q ∷ xs)
          ≡ size p + total size (q ∷ xs)) [
            | true ↦ omega (arith, total-insert_by size p xs)
            | false ↦ refl
          ]

  -- A sum over the elements does not depend on their order.
  pub total-sort_by :
      (size : A → ℕ) (xs : List A) → total size (sort_by key order xs) ≡ total size xs
  unfolding sort_by
  total-sort_by size [] = refl
  total-sort_by size (p ∷ xs) =
      omega (arith, total-insert_by size p (sort_by key order xs), total-sort_by size xs)

  All-insert_by :
      (P : A → Type 0) (p : A) (xs : List A) → P p → All P xs → All P (insert_by key order p xs)
  All-insert_by P p [] is all = (is, all)
  All-insert_by P p (q ∷ xs) is all =
      elim (is_greater (order.cmp (key p) (key q)))
        as (λ g. All P (if g then q ∷ insert_by key order p xs else p ∷ q ∷ xs)) [
          | true ↦ (all.0, All-insert_by P p xs is all.1)
          | false ↦ (is, all)
        ]

  pub All-sort_by : (P : A → Type 0) (xs : List A) → All P xs → All P (sort_by key order xs)
  unfolding sort_by
  All-sort_by P [] all = tt
  All-sort_by P (p ∷ xs) all =
      All-insert_by P p (sort_by key order xs) all.0 (All-sort_by P xs all.1)
