-- ===== src/Chain/SizeBatcher/Batches.antt =====
-- What `SizeBatcher` sends: all items, in order, in batches within the limit.
use redbit.Prelude.{
  ℕ, ◌≤◌, ◌<◌, ◌≡◌, refl, ◌∙◌, ◌⊎◌, inl, inr, Bool, true, false, ◌||◌, Option, none, some, List, [],
  ◌∷◌, ◌++◌, arith, total, total-append, ltb, ltb→lt, length, if◌then◌else◌, subst, sym, usize_max,
  append-nil, append_assoc, saturating_add,
}
use mathlib.Core.List.{flatten}
use redbit.Chain.SizeBatcher.{SizeBatcher, new, is_empty, take_all, push, batches}

le_of_ltb : (a b : ℕ) → ltb a b ≡ false → b ≤ a
le_of_ltb a b h = ground arith

module _ {ℓ} {T : Type ℓ} (size : T → ℕ) where
  -- In immediate mode nothing is buffered.
  abbrev pub IsIdle : SizeBatcher T → Type ℓ
  IsIdle s = s.immediate ≡ true → s.buf ≡ []

  -- A batch is not empty, and it is within the limit or a single item.
  abbrev pub Fits : ℕ → List T → Type 0
  Fits limit batch = (0 < length batch) × ((total size batch ≤ limit) ⊎ (length batch ≡ 1))

  abbrev pub AllFit : ℕ → List (List T) → Type 0
  AllFit limit [] = Unit
  AllFit limit (b ∷ bs) = Fits limit b × AllFit limit bs

  -- `bytes` counts the buffer, which fits if it is not empty.
  pub record IsCounted (s : SizeBatcher T) : Type ℓ where
    pub idle : IsIdle s
    pub counted : s.bytes ≡ total size s.buf
    pub fits : (total size s.buf ≤ s.byte_limit) ⊎ (length s.buf ≡ 1)

  -- The four ways of a push.
  data Push (item : T) (s : SizeBatcher T) (r : SizeBatcher T × Option (List T)) : Type ℓ where
    now : s.immediate ≡ true → r ≡ (s, some (item ∷ [])) → Push item s r
    alone :
        s.immediate ≡ false
        → s.byte_limit < saturating_add usize_max s.bytes (size item)
        → s.buf ≡ []
        → r ≡ (s, some (item ∷ []))
        → Push item s r
    cut :
        s.immediate ≡ false
        → 0 < length s.buf
        → r ≡ (record s { bytes = size item; buf = item ∷ [] }, some s.buf)
        → Push item s r
    grow :
        s.immediate ≡ false
        → saturating_add usize_max s.bytes (size item) ≤ s.byte_limit
        → r ≡ (
          record s {
            bytes = saturating_add usize_max s.bytes (size item);
            buf = s.buf ++ item ∷ [];
          },
          none,
        )
        → Push item s r

  -- The tests of `push` and their answers.
  push_by :
      (item : T) (s : SizeBatcher T) (imm over : Bool) (buf : List T)
      → s.immediate ≡ imm
      → ltb s.byte_limit (saturating_add usize_max s.bytes (size item)) ≡ over
      → s.buf ≡ buf
      → Push item s (
          if imm
          then (s, some (item ∷ []))
          else if over
          then (if is_empty buf
              then (s, some (item ∷ []))
              else (record s { bytes = size item; buf = item ∷ [] }, some s.buf))
          else (
            record s {
              bytes = saturating_add usize_max s.bytes (size item);
              buf = s.buf ++ item ∷ [];
            },
            none,
          ))
  push_by item s true over buf e o n = now e refl
  push_by item s false true [] e o n = alone e (ltb→lt _ _ o) n refl
  push_by item s false true (x ∷ buf) e o n = cut e (rw n (omega arith)) refl
  push_by item s false false buf e o n = grow e (le_of_ltb _ _ o) refl

  push_lem : (item : T) (s : SizeBatcher T) → Push item s (push size item s)
  unfolding push
  push_lem item s = push_by item s s.immediate _ s.buf refl refl refl

  -- One round of `batches`, over what `push` returned.
  abbrev round : List T → SizeBatcher T × Option (List T) → List (List T)
  round items r = elim r.1 [
    | none ↦ batches size items r.0
    | some batch ↦ batch ∷ batches size items r.0
  ]

  flatten-round :
      (item : T) (items : List T) (s : SizeBatcher T) (r : SizeBatcher T × Option (List T))
      → IsIdle s
      → Push item s r
      → ((s' : SizeBatcher T) → IsIdle s' → flatten (batches size items s') ≡ s'.buf ++ items)
      → flatten (round items r) ≡ s.buf ++ item ∷ items
  unfolding flatten
  flatten-round item items s r idle (now e p) ih = rw p (rw (ih s idle, idle e))
  flatten-round item items s r idle (alone e h empty p) ih = rw p (rw (ih s idle, empty))
  flatten-round item items s r idle (cut e h p) ih =
      rw p (rw (ih (record s { bytes = size item; buf = item ∷ [] }) (λ q. cc)))
  flatten-round item items s r idle (grow e h p) ih = rw p (
      rw (
        ih
            (record s {
              bytes = saturating_add usize_max s.bytes (size item);
              buf = s.buf ++ item ∷ [];
            })
            (λ q. cc),
        append_assoc,
      ))

  flatten-take_all : (s : SizeBatcher T) → IsIdle s → flatten (batches size [] s) ≡ s.buf ++ []
  unfolding batches take_all flatten
  flatten-take_all s idle = ground (arith, append-nil s.buf)

  -- The items, in order, are the batches joined, whatever the mode, the limit and the sizes.
  pub flatten-batches :
      (items : List T) (s : SizeBatcher T)
      → IsIdle s
      → flatten (batches size items s) ≡ s.buf ++ items
  unfolding batches
  flatten-batches [] s idle = flatten-take_all s idle
  flatten-batches (item ∷ items) s idle =
      flatten-round item items s (push size item s) idle (push_lem item s) (flatten-batches items)

  -- What the invariant makes of one push: it stays, and the batch that leaves fits.
  round-AllFit :
      (item : T) (items : List T) (s : SizeBatcher T) (r : SizeBatcher T × Option (List T))
      → s.byte_limit < usize_max
      → IsCounted s
      → Push item s r
      → ((s' : SizeBatcher T)
          → s'.byte_limit ≡ s.byte_limit
          → IsCounted s'
          → AllFit s.byte_limit (batches size items s'))
      → AllFit s.byte_limit (round items r)
  round-AllFit item items s r room c (now e p) ih = rw p ((omega arith, inr refl), ih s refl c)
  round-AllFit item items s r room c (alone e h empty p) ih =
      rw p ((omega arith, inr refl), ih s refl c)
  round-AllFit item items s r room c (cut e h p) ih = rw p (
    (h, c.fits),
    ih (record s { bytes = size item; buf = item ∷ [] }) refl
        (record { idle = λ q. cc; counted = omega arith; fits = inr refl }),
  )
  round-AllFit item items s r room c (grow e h p) ih = rw p (
      ih
        (record s {
          bytes = saturating_add usize_max s.bytes (size item);
          buf = s.buf ++ item ∷ [];
        })
        refl
        (record {
          idle = λ q. cc;
          counted = omega (arith, c.counted, total-append size s.buf (item ∷ []));
          fits = inl (omega (arith, c.counted, total-append size s.buf (item ∷ [])));
        }))

  tail-AllFit :
      (limit : ℕ) (imm : Bool) (buf : List T) (s : SizeBatcher T)
      → (total size buf ≤ limit) ⊎ (length buf ≡ 1)
      → let r : SizeBatcher T × Option (List T) =
          if imm || is_empty buf then (s, none) else (record s { buf = []; bytes = 0 }, some buf) in
        AllFit limit (elim r.1 [ none ↦ [] | some tail ↦ tail ∷ [] ])
  tail-AllFit limit true buf s fits = tt
  tail-AllFit limit false [] s fits = tt
  tail-AllFit limit false (x ∷ buf) s fits = ((omega arith, fits), tt)

  batches-AllFit :
      (items : List T) (s : SizeBatcher T) (limit : ℕ)
      → limit < usize_max
      → s.byte_limit ≡ limit
      → IsCounted s
      → AllFit limit (batches size items s)
  unfolding batches take_all
  batches-AllFit [] s limit room e c =
      tail-AllFit limit s.immediate s.buf s
        (subst (λ (l : ℕ). (total size s.buf ≤ l) ⊎ (length s.buf ≡ 1)) e c.fits)
  batches-AllFit (item ∷ items) s limit room e c =
      subst (λ (l : ℕ). AllFit l (round items (push size item s))) e
        (round-AllFit item items s (push size item s) (rw e room) c (push_lem item s) (λ s' e' c'.
          subst (λ (l : ℕ). AllFit l (batches size items s')) (sym e)
            (batches-AllFit items s' limit room (e' ∙ e) c')))

  -- From a new batcher, whose limit is not the largest `usize`, no batch is empty, and every batch
  -- is within the limit or is a single item.
  pub batches_fit :
      (limit : ℕ) (immediate : Bool) (items : List T)
      → limit < usize_max
      → AllFit limit (batches size items (new limit immediate))
  unfolding new
  batches_fit limit immediate items room =
      batches-AllFit items (new limit immediate) limit room refl
        (record { idle = λ e. refl; counted = refl; fits = inl (omega arith) })
