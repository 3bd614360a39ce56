-- ===== src/Jobs/Recovery.antt =====
-- src/jobs/publish/publish-task-worker.service.ts: which tasks a poll of recoverTasks is to take.
use ota_api.Jobs.Due.{IsDue, IsDue-can_claim, can_claim-IsDue, is_recoverable-can_claim}
use ota_api.Jobs.Rows.{Database, Task}
use ota_api.Jobs.Execution.{by_creation, order_by_creation, is_recoverable, recoverable_tasks}
use ota_api.Prelude.{
  Bool-cases, In, In-filter_from, In-filter_to, List, Text, [], ap, arith, filter, if◌then◌else◌,
  inl, inr, length, ltb, map, nat_eq, option_text_eq, refl, subst, suc, sym, take, text_eq, true,
  zero, ℕ, ◌∙◌, ◌∷◌, ◌≡◌, ◌≤◌, ◌⊎◌,
}

-- No task is older than one before it.
abbrev IsOrdered : List Task → Type 0
IsOrdered [] = Unit
IsOrdered (t ∷ ts) = ((u : Task) → In u ts → t.created_at ≤ u.created_at) × IsOrdered ts

In-by_creation_from : (t u : Task) (ts : List Task) → In u (by_creation t ts) → (u ≡ t) ⊎ In u ts
unfolding by_creation
In-by_creation_from t u [] m = m
In-by_creation_from t u (x ∷ ts) m = elim (Bool-cases (ltb x.created_at t.created_at)) [
  | inr early ↦ subst (λ b. In u (if b then x ∷ by_creation t ts else t ∷ x ∷ ts)) early m
  | inl late ↦ elim (subst (λ b. In u (if b then x ∷ by_creation t ts else t ∷ x ∷ ts)) late m) [
    | inl e ↦ inr (inl e)
    | inr k ↦ elim (In-by_creation_from t u ts k) [ inl e ↦ inl e | inr n ↦ inr (inr n) ]
  ]
]

In-by_creation_to : (t u : Task) (ts : List Task) → (u ≡ t) ⊎ In u ts → In u (by_creation t ts)
unfolding by_creation
In-by_creation_to t u [] m = m
In-by_creation_to t u (x ∷ ts) m = elim (Bool-cases (ltb x.created_at t.created_at)) [
  | inr early ↦ subst (λ b. In u (if b then x ∷ by_creation t ts else t ∷ x ∷ ts)) (sym early) m
  | inl late ↦
      subst (λ b. In u (if b then x ∷ by_creation t ts else t ∷ x ∷ ts)) (sym late)
        (elim m [
          | inl e ↦ inr (In-by_creation_to t u ts (inl e))
          | inr (inl e) ↦ inl e
          | inr (inr n) ↦ inr (In-by_creation_to t u ts (inr n))
        ])
]

by_creation-IsOrdered : (t : Task) (ts : List Task) → IsOrdered ts → IsOrdered (by_creation t ts)
unfolding by_creation
by_creation-IsOrdered t [] h = (λ u m. elim m [ ], tt)
by_creation-IsOrdered t (x ∷ ts) h = elim (Bool-cases (ltb x.created_at t.created_at)) [
  | inr early ↦
      subst (λ b. IsOrdered (if b then x ∷ by_creation t ts else t ∷ x ∷ ts)) (sym early)
        ((
          λ u m. elim m [
            | inl e ↦
                subst (λ (v : Task). t.created_at ≤ v.created_at) (sym e) (ground (arith, early))
            | inr n ↦ ground (arith, early, h.0 u n)
          ],
          h,
        ))
  | inl late ↦
      subst (λ b. IsOrdered (if b then x ∷ by_creation t ts else t ∷ x ∷ ts)) (sym late)
        ((
          λ u m. elim (In-by_creation_from t u ts m) [
            | inl e ↦
                subst (λ (v : Task). x.created_at ≤ v.created_at) (sym e) (ground (arith, late))
            | inr n ↦ h.0 u n
          ],
          by_creation-IsOrdered t ts h.1,
        ))
]

order_by_creation-IsOrdered : (ts : List Task) → IsOrdered (order_by_creation ts)
unfolding order_by_creation
order_by_creation-IsOrdered [] = tt
order_by_creation-IsOrdered (t ∷ ts) =
    by_creation-IsOrdered t (order_by_creation ts) (order_by_creation-IsOrdered ts)

In-order_from : (u : Task) (ts : List Task) → In u (order_by_creation ts) → In u ts
unfolding order_by_creation
In-order_from u [] m = m
In-order_from u (t ∷ ts) m = elim (In-by_creation_from t u (order_by_creation ts) m) [
  | inl e ↦ inl e
  | inr n ↦ inr (In-order_from u ts n)
]

In-order_to : (u : Task) (ts : List Task) → In u ts → In u (order_by_creation ts)
unfolding order_by_creation
In-order_to u [] m = m
In-order_to u (t ∷ ts) (inl e) = In-by_creation_to t u (order_by_creation ts) (inl e)
In-order_to u (t ∷ ts) (inr n) =
    In-by_creation_to t u (order_by_creation ts) (inr (In-order_to u ts n))

In-take : (u : Task) (n : ℕ) (ts : List Task) → In u (take n ts) → In u ts
In-take u zero ts m = elim m [ ]
In-take u (suc n) [] m = m
In-take u (suc n) (t ∷ ts) (inl e) = inl e
In-take u (suc n) (t ∷ ts) (inr m) = inr (In-take u n ts m)

-- what is left out of the first tasks comes behind all of them
take_or_older :
    (u : Task) (n : ℕ) (ts : List Task)
    → IsOrdered ts
    → In u ts
    → In u (take n ts)
      ⊎ ((length (take n ts) ≡ n) × ((p : Task) → In p (take n ts) → p.created_at ≤ u.created_at))
take_or_older u zero ts h m = inr (refl, λ p k. elim k [ ])
take_or_older u (suc n) [] h m = elim m [ ]
take_or_older u (suc n) (t ∷ ts) h (inl e) = inl (inl e)
take_or_older u (suc n) (t ∷ ts) h (inr m) = elim (take_or_older u n ts h.1 m) [
  | inl k ↦ inl (inr k)
  | inr (full, older) ↦ inr (
    omega (arith, full),
    λ p k. elim k [
      | inl e ↦ subst (λ (v : Task). v.created_at ≤ u.created_at) (sym e) (h.0 u m)
      | inr j ↦ older p j
    ],
  )
]

length-take_le : (n : ℕ) (ts : List Task) → length (take n ts) ≤ n
length-take_le zero ts = omega arith
length-take_le (suc n) [] = omega arith
length-take_le (suc n) (t ∷ ts) = omega (arith, length-take_le n ts)

In-ids_to : (u : Task) (ts : List Task) → In u ts → In u.task_id (map (λ (t : Task). t.task_id) ts)
In-ids_to u [] m = m
In-ids_to u (t ∷ ts) (inl e) = inl (ap (λ (v : Task). v.task_id) e)
In-ids_to u (t ∷ ts) (inr m) = inr (In-ids_to u ts m)

In-ids_from :
    (id : Text) (ts : List Task)
    → In id (map (λ (t : Task). t.task_id) ts)
    → (t : Task) × In t ts × (t.task_id ≡ id)
In-ids_from id [] m = elim m [ ]
In-ids_from id (t ∷ ts) (inl e) = (t, inl refl, sym e)
In-ids_from id (t ∷ ts) (inr m) = let (u, k, e) = In-ids_from id ts m in (u, inr k, e)

length-ids : (ts : List Task) → length (map (λ (t : Task). t.task_id) ts) ≡ length ts
length-ids [] = refl
length-ids (t ∷ ts) = omega (arith, length-ids ts)

-- The tasks that a poll finds.
pub record IsPoll (now : ℕ) (db : Database) (polled : List Text) : Type 0 where
  pub few : length polled ≤ 10
  pub due :
      (id : Text)
      → In id polled
      → (t : Task) × In t db.tasks × (t.task_id ≡ id) × IsDue t.status t now
  pub oldest :
      (t : Task)
      → In t db.tasks
      → IsDue t.status t now
      → In t.task_id polled
        ⊎ ((length polled ≡ 10)
            × ((id : Text)
                → In id polled
                → (p : Task) × In p db.tasks × (p.task_id ≡ id) × (p.created_at ≤ t.created_at)))

-- A poll takes at most ten tasks, each of which waits for a run that is due or runs under a lease that
-- has ended; and a task like that which it leaves out stands behind ten that it takes, none of them
-- created later.
pub recoverable_tasks-IsPoll : (now : ℕ) (db : Database) → IsPoll now db (recoverable_tasks now db)
unfolding recoverable_tasks
recoverable_tasks-IsPoll now db =
    let claimable = filter (is_recoverable now) db.tasks in
    let ordered = order_by_creation claimable in
    let from : (t : Task) → In t (take 10 ordered) → In t db.tasks × (is_recoverable now t ≡ true) =
      λ t m.
        In-filter_from (is_recoverable now) t db.tasks
          (In-order_from t claimable (In-take t 10 ordered m)) in
    record {
      few = subst (λ n. n ≤ 10) (sym (length-ids (take 10 ordered))) (length-take_le 10 ordered);
      due = λ id m.
          let (t, k, e) = In-ids_from id (take 10 ordered) m in
          let (there, r) = from t k in
          (t, there, e, IsDue-can_claim t.status t now (sym (is_recoverable-can_claim now t) ∙ r));
      oldest = λ t m d.
          let r = is_recoverable-can_claim now t ∙ can_claim-IsDue t.status t now d in
          elim (take_or_older t 10 ordered (order_by_creation-IsOrdered claimable)
            (In-order_to t claimable (In-filter_to (is_recoverable now) t db.tasks m r))) [
              | inl k ↦ inl (In-ids_to t (take 10 ordered) k)
              | inr (full, older) ↦ inr (
                length-ids (take 10 ordered) ∙ full,
                λ id n.
                    let (p, k, e) = In-ids_from id (take 10 ordered) n in
                    (p, (from p k).0, e, older p k),
              )
            ];
    }
