-- ===== src/Storage/Router/Buckets.antt =====
-- What the buckets of a router hold.
use redbit.Prelude.{
  ℕ, zero, suc, ◌<◌, ◌≡◌, refl, sym, ap, subst, ◌∙◌, ◌==◌, ==_iff, Bool-cases, true, inl, inr, some,
  List, [], ◌∷◌, ◌++◌, if◌then◌else◌, length, get_elem?, set, replicate, length-set,
  length-replicate, get_elem?-set_self, get_elem?-set_ne, append-nil, append_assoc, arith,
}
use mathlib.Core.Bool.{false≢true}
use mathlib.Core.Option.{some_inj}
use redbit.Storage.Router.{fill, bucket}

pub get_elem?-lt :
    {B : Type 0} (l : List B) (i : ℕ) → i < length l → (b : B) × (get_elem? l i ≡ some b)
get_elem?-lt [] i h = elim h [ ]
get_elem?-lt (x ∷ xs) zero h = (x, refl)
get_elem?-lt (x ∷ xs) (suc i) h = get_elem?-lt xs i (omega (arith, h))

module _ {A : Type 0} (shard : A → ℕ) where
  -- The elements of a shard, in order.
  abbrev pub keep : ℕ → List A → List A
  keep i [] = []
  keep i (x ∷ xs) = let rest = keep i xs in if shard x == i then x ∷ rest else rest

  -- All elements have a shard.
  abbrev pub AllBelow : ℕ → List A → Type 0
  AllBelow n [] = Unit
  AllBelow n (x ∷ xs) = (shard x < n) × AllBelow n xs

  fill_lem :
      (xs : List A) (buckets : List (List A))
      → AllBelow (length buckets) xs
      → (buckets' : List (List A)) × (fill shard xs buckets ≡ some buckets')
        × (length buckets' ≡ length buckets)
        × ((i : ℕ) (b : List A)
            → get_elem? buckets i ≡ some b
            → get_elem? buckets' i ≡ some (b ++ keep i xs))
  unfolding fill
  fill_lem [] buckets all = (buckets, refl, refl, λ i b h. h ∙ ap some (sym (append-nil b)))
  fill_lem (x ∷ xs) buckets (below, all) =
      let (old, at) = get_elem?-lt buckets (shard x) below in
      let buckets1 = set buckets (shard x) (old ++ x ∷ []) in
      let long : length buckets1 ≡ length buckets = length-set buckets (shard x) (old ++ x ∷ []) in
      let (buckets2, done, long', held) =
        fill_lem xs buckets1 (subst (λ n. AllBelow n xs) (sym long) all) in
      rw (fill, at)
        (
          buckets2,
          done,
          long' ∙ long,
          λ i b h. elim (Bool-cases (shard x == i)) [
            | inl here ↦
                let e : shard x ≡ i = (==_iff (shard x) i).0 here in
                let same : old ≡ b = some_inj.0 (sym at ∙ ap (get_elem? buckets) e ∙ h) in
                let now : get_elem? buckets1 i ≡ some (old ++ x ∷ []) =
                  ap (get_elem? buckets1) (sym e)
                  ∙ get_elem?-set_self buckets (shard x) (old ++ x ∷ []) below in
                rw (here) (
                  held i (old ++ x ∷ []) now
                  ∙ ap some
                      (append_assoc old (x ∷ []) (keep i xs) ∙ ap (λ l. l ++ x ∷ keep i xs) same))
            | inr other ↦
                let now : get_elem? buckets1 i ≡ some b =
                  get_elem?-set_ne buckets (old ++ x ∷ [])
                    (λ e. false≢true (sym other ∙ (==_iff (shard x) i).1 e))
                  ∙ h in
                rw (other) (held i b now)
          ],
        )

  get_elem?-replicate :
      {B : Type 0} (n i : ℕ) (b : B) → i < n → get_elem? (replicate n b) i ≡ some b
  get_elem?-replicate zero i b h = elim h [ ]
  get_elem?-replicate (suc n) zero b h = refl
  get_elem?-replicate (suc n) (suc i) b h = get_elem?-replicate n i b (omega (arith, h))

  -- Each bucket gets the elements of its shard, in order.
  pub bucket_lem :
      (n : ℕ) (xs : List A)
      → AllBelow n xs
      → (buckets : List (List A)) × (bucket n shard xs ≡ some buckets)
        × (length buckets ≡ n)
        × ((i : ℕ) → i < n → get_elem? buckets i ≡ some (keep i xs))
  unfolding bucket
  bucket_lem n xs all =
      let (buckets, done, long, held) =
        fill_lem xs (replicate n [])
          (subst (λ m. AllBelow m xs) (sym (length-replicate n [])) all) in
      (buckets, done, long ∙ length-replicate n [], λ i h. held i [] (get_elem?-replicate n i [] h))

  -- With one shard its bucket has everything.
  pub keep_all : (xs : List A) → AllBelow 1 xs → keep 0 xs ≡ xs
  keep_all [] all = refl
  keep_all (x ∷ xs) (below, all) =
      let here : (shard x == 0) ≡ true = (==_iff (shard x) 0).1 (omega (arith, below)) in
      rw (here) (ap (λ l. x ∷ l) (keep_all xs all))
