-- ===== src/Storage/Router/Delivery.antt =====
-- What the threads of the shards get from a router.
use redbit.Prelude.{
  ℕ, zero, suc, ◌+◌, ◌<◌, ◌≡◌, ◌≢◌, refl, sym, ap, ap₂, ◌∙◌, ◌==◌, ==_iff, Bool, Bool-cases, true,
  false, inl, inr, some, List, [], ◌∷◌, ◌++◌, if◌then◌else◌, get_elem?, arith,
}
use mathlib.Core.Option.{none-ne-some, some_inj}
use redbit.Storage.WriterApi.{WriterCommand}
use redbit.Storage.Router.{fast_send, send_buckets, send_each}

module _ {K V : Type 0} where
  -- The messages to a shard, in order.
  abbrev pub inbox : ℕ → List (ℕ × WriterCommand K V) → List (WriterCommand K V)
  inbox i [] = []
  inbox i ((sid, msg) ∷ messages) =
      let rest = inbox i messages in if sid == i then msg ∷ rest else rest

  pub inbox-append :
      (i : ℕ) (xs ys : List (ℕ × WriterCommand K V)) → inbox i (xs ++ ys) ≡ inbox i xs ++ inbox i ys
  inbox-append i [] ys = refl
  inbox-append i ((sid, msg) ∷ xs) ys = elim (Bool-cases (sid == i)) [
    | inl here ↦ rw (here) (ap (λ l. msg ∷ l) (inbox-append i xs ys))
    | inr other ↦ rw (other) (inbox-append i xs ys)
  ]

  pub inbox_here :
      (sid i : ℕ) (msg : WriterCommand K V) (messages : List (ℕ × WriterCommand K V))
      → sid ≡ i
      → inbox i ((sid, msg) ∷ messages) ≡ msg ∷ inbox i messages
  inbox_here sid i msg messages e = rw ((==_iff sid i).1 e) refl

  inbox_other :
      (sid i : ℕ) (msg : WriterCommand K V) (messages : List (ℕ × WriterCommand K V))
      → sid ≢ i
      → inbox i ((sid, msg) ∷ messages) ≡ inbox i messages
  inbox_other sid i msg messages ne =
      let other : (sid == i) ≡ false = ground (arith, ne) in rw (other) refl

-- An index is 0 or one more than another.
pub index_cases : {P : Type 0} (j : ℕ) → ((j ≡ 0) → P) → ((k : ℕ) → (j ≡ suc k) → P) → P
index_cases zero first later = first refl
index_cases (suc k) first later = later k refl

module _ {A : Type 0} where
  here : (b b' : A) (bs : List A) (j : ℕ) → j ≡ 0 → get_elem? (b ∷ bs) j ≡ some b' → b ≡ b'
  here b b' bs j e h = some_inj.0 (ap (get_elem? (b ∷ bs)) (sym e) ∙ h)

  there :
      (b b' : A) (bs : List A) (j k : ℕ)
      → j ≡ suc k
      → get_elem? (b ∷ bs) j ≡ some b'
      → get_elem? bs k ≡ some b'
  there b b' bs j k e h = ap (get_elem? (b ∷ bs)) (sym e) ∙ h

module _ {K V : Type 0} (receives : ℕ → Bool) (on : (sid : ℕ) → receives sid ≡ true) where
  pub fast_send_lem :
      (sid : ℕ) (msg : WriterCommand K V)
      → fast_send receives sid msg ≡ record { messages = (sid, msg) ∷ []; is_ok = true }
  unfolding fast_send
  fast_send_lem sid msg = rw (on sid) refl

  -- Each bucket that is wanted goes to its shard.
  pub send_buckets_lem :
      {A : Type 0} (wanted : List A → Bool) (command : List A → WriterCommand K V) (sid : ℕ)
      (buckets : List (List A))
      → ((send_buckets receives wanted command sid buckets).is_ok ≡ true)
        × ((i : ℕ)
            → i < sid
            → inbox i (send_buckets receives wanted command sid buckets).messages ≡ [])
        × ((j : ℕ) (b : List A)
            → get_elem? buckets j ≡ some b
            → inbox (sid + j) (send_buckets receives wanted command sid buckets).messages
              ≡ (if wanted b then command b ∷ [] else []))
  unfolding send_buckets
  send_buckets_lem wanted command sid [] = (refl, λ i h. refl, λ j b h. absurd (none-ne-some b h))
  send_buckets_lem wanted command sid (b ∷ buckets) =
      let (ok, below, at) = send_buckets_lem wanted command (suc sid) buckets in
      let rest = (send_buckets receives wanted command (suc sid) buckets).messages in
      elim (Bool-cases (wanted b)) [
        | inl want ↦
            rw (send_buckets, want, fast_send_lem sid (command b))
              (
                ok,
                λ i h.
                    inbox_other sid i (command b) rest (omega (arith, h))
                    ∙ below i (omega (arith, h)),
                λ j b' h.
                    index_cases j
                      (λ e.
                        inbox_here sid (sid + j) (command b) rest (omega (arith, e))
                        ∙ ap (λ l. command b ∷ l) (below (sid + j) (omega (arith, e)))
                        ∙ ap (λ (t : Bool). if t then command b ∷ [] else []) (sym want)
                        ∙ ap (λ c. if wanted c then command c ∷ [] else [])
                            (here b b' buckets j e h))
                      (λ k e.
                        inbox_other sid (sid + j) (command b) rest (omega (arith, e))
                        ∙ ap (λ n. inbox n rest) (omega (arith, e))
                        ∙ at k b' (there b b' buckets j k e h)),
              )
        | inr skip ↦
            rw (send_buckets, skip)
              (
                ok,
                λ i h. below i (omega (arith, h)),
                λ j b' h.
                    index_cases j
                      (λ e.
                        below (sid + j) (omega (arith, e))
                        ∙ ap (λ (t : Bool). if t then command b ∷ [] else []) (sym skip)
                        ∙ ap (λ c. if wanted c then command c ∷ [] else [])
                            (here b b' buckets j e h))
                      (λ k e.
                        ap (λ n. inbox n rest) (omega (arith, e))
                        ∙ at k b' (there b b' buckets j k e h)),
              )
      ]

  -- Every shard from one on gets its command.
  pub send_each_lem :
      (command : ℕ → WriterCommand K V) (sid n : ℕ)
      → ((send_each receives command sid n).is_ok ≡ true)
        × ((i : ℕ) → i < sid → inbox i (send_each receives command sid n).messages ≡ [])
        × ((j : ℕ)
            → j < n
            → inbox (sid + j) (send_each receives command sid n).messages ≡ command (sid + j) ∷ [])
  unfolding send_each
  send_each_lem command sid zero = (refl, λ i h. refl, λ j h. elim h [ ])
  send_each_lem command sid (suc n) =
      let (ok, below, at) = send_each_lem command (suc sid) n in
      let rest = (send_each receives command (suc sid) n).messages in
      rw (send_each, fast_send_lem sid (command sid))
        (
          ok,
          λ i h.
              inbox_other sid i (command sid) rest (omega (arith, h)) ∙ below i (omega (arith, h)),
          λ j h.
              index_cases j
                (λ e.
                  inbox_here sid (sid + j) (command sid) rest (omega (arith, e))
                  ∙ ap₂ (λ i l. command i ∷ l) {x = sid} {y = sid + j} (omega (arith, e))
                      (below (sid + j) (omega (arith, e))))
                (λ k e.
                  let behind : suc sid + k ≡ sid + j = omega (arith, e) in
                  inbox_other sid (sid + j) (command sid) rest (omega (arith, e))
                  ∙ ap (λ i. inbox i rest) (sym behind)
                  ∙ at k (omega (arith, e, h))
                  ∙ ap (λ i. command i ∷ []) behind),
        )
