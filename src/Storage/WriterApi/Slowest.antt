-- ===== src/Storage/WriterApi/Slowest.antt =====
-- `FlushFuture::dedup_tasks_keep_slowest` of redbit/src/storage/table_writer_api.rs.
use redbit.Prelude.{
  ◌≤◌, ◌≡◌, refl, sym, ap, subst, ◌∙◌, ◌⊎◌, inl, inr, Bool, Bool-cases, true, false, Option, none,
  some, List, [], ◌∷◌, ◌++◌, map, ltb, ltb→lt, if◌then◌else◌, arith,
}
use mathlib.Core.Bool.{false≢true}
use mathlib.Core.Option.{some_inj, none-ne-some}
use mathlib.Core.List.{Memᴰ}
use mathlib.Core.List.Memᴰ
use redbit.Prelude.Equality.{Eq}
use redbit.Storage.Redb.Views.{same_of_eq, not-same}
use redbit.Storage.WriterApi.{TaskResult, sum, keep_slowest, dedup_from, dedup_tasks_keep_slowest}

module _ {Name : Type 0} (names : Eq Name) where
  -- The entry of a name.
  abbrev pub entry : Name → List (TaskResult Name) → Option (TaskResult Name)
  entry n [] = none
  entry n (e ∷ by_name) = let rest = entry n by_name in if names.same e.name n then some e else rest

  -- The slowest task of a name so far and one more task.
  abbrev slower : TaskResult Name → Option (TaskResult Name) → Option (TaskResult Name)
  slower res none = some res
  slower res (some e) = some (if ltb (sum e.stats) (sum res.stats) then res else e)

  -- The first of the slowest tasks of a name.
  abbrev pub slowest :
      Name → List (TaskResult Name) → Option (TaskResult Name) → Option (TaskResult Name)
  slowest n [] best = best
  slowest n (res ∷ tasks) best =
      slowest n tasks (if names.same res.name n then slower res best else best)

  entry-keep_slowest :
      (res : TaskResult Name) (by_name : List (TaskResult Name)) (n : Name)
      → entry n (keep_slowest names res by_name)
        ≡ (if names.same res.name n then slower res (entry n by_name) else entry n by_name)
  unfolding keep_slowest
  entry-keep_slowest res [] n = refl
  entry-keep_slowest res (e ∷ by_name) n = elim (Bool-cases (names.same e.name res.name)) [
    | inl same ↦
        let e_res : e.name ≡ res.name = (names.same_iff e.name res.name).0 same in
        let agree : names.same e.name n ≡ names.same res.name n = ap (λ m. names.same m n) e_res in
        elim (Bool-cases (names.same res.name n)) [
          | inl here ↦ elim (Bool-cases (ltb (sum e.stats) (sum res.stats))) [
            | inl slow ↦
                rw (keep_slowest, same, slow, agree, here)
                  (ap (λ (t : Bool). some (if t then res else e)) (sym slow))
            | inr fast ↦
                rw (keep_slowest, same, fast, agree, here)
                  (ap (λ (t : Bool). some (if t then res else e)) (sym fast))
          ]
          | inr other ↦ elim (Bool-cases (ltb (sum e.stats) (sum res.stats))) [
            | inl slow ↦ rw (keep_slowest, same, slow, agree, other) refl
            | inr fast ↦ rw (keep_slowest, same, fast, agree, other) refl
          ]
        ]
    | inr apart ↦ elim (Bool-cases (names.same e.name n)) [
      | inl here ↦
          let off : names.same res.name n ≡ false = not-same names (λ h.
            false≢true (sym apart ∙ same_of_eq names ((names.same_iff e.name n).0 here ∙ sym h))) in
          rw (keep_slowest, apart, here, off) refl
      | inr other ↦ rw (keep_slowest, apart, other) (entry-keep_slowest res by_name n)
    ]
  ]

  dedup_from_lem :
      (tasks : List (TaskResult Name)) (by_name : List (TaskResult Name))
      → (out : List (TaskResult Name)) × (dedup_from names (map some tasks) by_name ≡ some out)
        × ((n : Name) → entry n out ≡ slowest n tasks (entry n by_name))
  unfolding dedup_from
  dedup_from_lem [] by_name = (by_name, refl, λ n. refl)
  dedup_from_lem (res ∷ tasks) by_name =
      let (out, done, at) = dedup_from_lem tasks (keep_slowest names res by_name) in
      (out, done, λ n. at n ∙ ap (slowest n tasks) (entry-keep_slowest res by_name n))

  -- A task is at most as slow as the one kept.
  abbrev Bounds : TaskResult Name → Option (TaskResult Name) → Type 0
  Bounds u best = (t : TaskResult Name) × (best ≡ some t) × (sum u.stats ≤ sum t.stats)

  slower-Bounds :
      (res : TaskResult Name) (best : Option (TaskResult Name))
      → Bounds res (slower res best)
        × ((u : TaskResult Name) → Bounds u best → Bounds u (slower res best))
  slower-Bounds res none = ((res, refl, omega arith), λ u (t, e, le). absurd (none-ne-some t e))
  slower-Bounds res (some e) = elim (Bool-cases (ltb (sum e.stats) (sum res.stats))) [
    | inl slow ↦ rw (slow) (
      (res, refl, omega arith),
      λ u (t, same, le).
          (res, refl, omega (arith, le, ltb→lt _ _ slow, ap (λ x. sum x.stats) (some_inj.0 same))),
    )
    | inr fast ↦ rw (fast) ((e, refl, ground (arith, fast)), λ u b. b)
  ]

  slowest-Bounds :
      (n : Name) (tasks : List (TaskResult Name)) (best : Option (TaskResult Name))
      (u : TaskResult Name)
      → Bounds u best ⊎ (Memᴰ u tasks × (u.name ≡ n))
      → Bounds u (slowest n tasks best)
  slowest-Bounds n [] best u (inl b) = b
  slowest-Bounds n [] best u (inr (m, e)) = absurd (Memᴰ.not-nil m)
  slowest-Bounds n (res ∷ tasks) best u known =
      slowest-Bounds n tasks (if names.same res.name n then slower res best else best) u
        (elim known [
          | inl b ↦
              inl
                (elim (names.same res.name n)
                  as (λ t. Bounds u (if t then slower res best else best)) [
                    | true ↦ (slower-Bounds res best).1 u b
                    | false ↦ b
                  ])
          | inr (Memᴰ.head e, name) ↦
              let here : names.same res.name n ≡ true =
                same_of_eq names (sym (ap (λ x. x.name) e) ∙ name) in
              inl (
                subst (λ t. Bounds u (if t then slower res best else best)) (sym here)
                  (subst (λ x. Bounds x (slower res best)) (sym e) (slower-Bounds res best).0))
          | inr (Memᴰ.tail m, name) ↦ inr (m, name)
        ])

  slower-from :
      (res : TaskResult Name) (best : Option (TaskResult Name)) (t : TaskResult Name)
      → slower res best ≡ some t
      → (best ≡ some t) ⊎ (t ≡ res)
  slower-from res none t e = inr (sym (some_inj.0 e))
  slower-from res (some b) t e = elim (Bool-cases (ltb (sum b.stats) (sum res.stats))) [
    | inl slow ↦ inr (sym (some_inj.0 e) ∙ ap (λ (c : Bool). if c then res else b) slow)
    | inr fast ↦ inl (ap (λ (c : Bool). some (if c then res else b)) (sym fast) ∙ e)
  ]

  slowest-from :
      (n : Name) (tasks : List (TaskResult Name)) (best : Option (TaskResult Name))
      (t : TaskResult Name)
      → slowest n tasks best ≡ some t
      → (best ≡ some t) ⊎ (Memᴰ t tasks × (t.name ≡ n))
  slowest-from n [] best t e = inl e
  slowest-from n (res ∷ tasks) best t e =
      elim (slowest-from n tasks (if names.same res.name n then slower res best else best) t e) [
        | inr (m, name) ↦ inr (Memᴰ.tail m, name)
        | inl e' ↦ elim (Bool-cases (names.same res.name n)) [
          | inl here ↦
              elim (slower-from res best t
                (ap (λ (c : Bool). if c then slower res best else best) (sym here) ∙ e')) [
                  | inl old ↦ inl old
                  | inr new ↦
                      inr (Memᴰ.head new, ap (λ x. x.name) new ∙ (names.same_iff res.name n).0 here)
                ]
          | inr other ↦
              inl (ap (λ (c : Bool). if c then slower res best else best) (sym other) ∙ e')
        ]
      ]

  -- If all flushes succeed, the entry of a name in the map is a task of that name, and every task of
  -- that name has an entry that is at least as slow; if one flush fails there is no map.
  pub dedup_tasks_keep_slowest_lem :
      (tasks : List (TaskResult Name)) (later : List (Option (TaskResult Name)))
      → ((out : List (TaskResult Name)) × (dedup_tasks_keep_slowest names (map some tasks)
            ≡ some out)
          × ((n : Name) (t : TaskResult Name) → entry n out ≡ some t → Memᴰ t tasks × (t.name ≡ n))
          × ((u : TaskResult Name)
              → Memᴰ u tasks
              → (t : TaskResult Name) × (entry u.name out ≡ some t) × (sum u.stats ≤ sum t.stats)))
        × (dedup_tasks_keep_slowest names (map some tasks ++ none ∷ later) ≡ none)
  unfolding dedup_tasks_keep_slowest dedup_from
  dedup_tasks_keep_slowest_lem tasks later =
      let (out, done, at) = dedup_from_lem tasks [] in
      (
        (
          out,
          done,
          λ n t e. elim (slowest-from n tasks none t (sym (at n) ∙ e)) [
            | inl no_task ↦ absurd (none-ne-some t no_task)
            | inr found ↦ found
          ],
          λ u m.
              let (t, e, le) = slowest-Bounds u.name tasks none u (inr (m, refl)) in
              (t, at u.name ∙ e, le),
        ),
        fails tasks [],
      )
    where
      fails :
          (tasks by_name : List (TaskResult Name))
          → dedup_from names (map some tasks ++ none ∷ later) by_name ≡ none
      fails [] by_name = refl
      fails (res ∷ tasks) by_name = fails tasks (keep_slowest names res by_name)
