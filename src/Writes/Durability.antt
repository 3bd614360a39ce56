-- ===== src/Writes/Durability.antt =====
-- What an outcome says of the database.
use ota_api.Writes.{
  Attempt, Driver, Outcome, WriteError, caught, cleaned, committed, is_undone, outcome_after, stop,
  Commit, acknowledged, acknowledgement_lost, commit, refused, ApplicationRow, FailureCode,
  application_not_ready, attempt, audit_failure, failure_code, is_prepared, locked_by, not_started,
  transact, unknown, with_application_write, with_audited_application_write, write_busy, write_with,
  writing,
}
use ota_api.Prelude.{
  Bool, Bool-cases, Option, Result, Text, ap, arith, err, false, if◌then◌else◌, inl, inr, nat_eq,
  none, not, ok, option_text_eq, refl, some, subst, sym, text_eq, true, ◌&&◌, ◌||◌, ◌∙◌, ◌≡◌, ◌≢◌,
  ◌⊎◌,
}

abbrev is_stopped : Outcome → Bool
is_stopped committed = false
is_stopped _ = true

stopped_after :
    (d : Driver) (o : Outcome) → is_stopped o ≡ true → is_stopped (outcome_after d false o) ≡ true
unfolding outcome_after
stopped_after d o s = ground (arith, s)

not_committed : (o : Outcome) → is_stopped o ≡ true → o ≢ committed
not_committed o s h = absurd (cc (s, ap is_stopped h))

cleaned-eq-ok :
    {A : Type 0} (d : Driver) (locked : Bool) (r : Result WriteError A) (b : A)
    → cleaned d locked r ≡ ok b
    → r ≡ ok b
unfolding cleaned
cleaned-eq-ok d locked (err e) b h = absurd (cc h)
cleaned-eq-ok d locked (ok a) b h = elim (Bool-cases ((not locked || d.unlocks) && d.releases)) [
  | inl clean ↦ subst (λ t. (if t then ok a else err d.thrown) ≡ ok b) clean h
  | inr failed ↦ absurd (cc (subst (λ t. (if t then ok a else err d.thrown) ≡ ok b) failed h))
]

ok_injective : {A : Type 0} (a b : A) (r : Result WriteError A) → r ≡ ok a → r ≡ ok b → a ≡ b
ok_injective a b r h k = cc (h, k)

module _ {Db A : Type 0} (write : Db → Result WriteError (A × Db)) (db : Db) where
  -- The database holds what the outcome tells: nothing of a write that is undone, all of one that is
  -- committed, and in any case nothing or all of it; and what succeeds is committed.
  pub record IsFaithful (outcome : Outcome) (stored : Db) (result : Result WriteError A)
      : Type 0 where
    pub undone : is_undone outcome ≡ true → (stored ≡ db) × ((a : A) → result ≢ ok a)
    pub done : outcome ≡ committed → (a : A) × (write db ≡ ok (a, stored))
    pub whole : (stored ≡ db) ⊎ ((a : A) × (write db ≡ ok (a, stored)))
    pub kept : (a : A) → result ≡ ok a → (outcome ≡ committed) × (write db ≡ ok (a, stored))

  -- an attempt, behind its `catch` and `finally` blocks
  abbrev Ends : Driver → Attempt Db A → Type 0
  Ends d t = IsFaithful (caught d t t.result) t.stored (cleaned d t.locked t.result)

  stop-Ends :
      (d : Driver) (o : Outcome) (locked : Bool) (e : WriteError)
      → is_stopped o ≡ true
      → Ends d (stop o locked db e)
  unfolding caught cleaned
  stop-Ends d o locked e s = record {
    undone = λ _. (refl, λ a h. cc h);
    done = λ h. absurd (not_committed _ (stopped_after d o s) h);
    whole = inl refl;
    kept = λ a h. absurd (cc h);
  }

  commit-Ends :
      (d : Driver) (c : Commit) (after : Db) (a : A)
      → write db ≡ ok (a, after)
      → Ends d (commit d.thrown c db after a)
  unfolding commit caught cleaned outcome_after
  commit-Ends d acknowledged after a e = record {
    undone = λ h. absurd (cc h);
    done = λ _. (a, e);
    whole = inr (a, e);
    kept = λ b h. (
      refl,
      e ∙ ap (λ x. ok (x, after)) (ok_injective a b (ok a) refl (cleaned-eq-ok d true (ok a) b h)),
    );
  }
  commit-Ends d refused after a e = record {
    undone = λ h. absurd (cc h);
    done = λ h. absurd (cc h);
    whole = inl refl;
    kept = λ b h. absurd (cc h);
  }
  commit-Ends d acknowledgement_lost after a e = record {
    undone = λ h. absurd (cc h);
    done = λ h. absurd (cc h);
    whole = inr (a, e);
    kept = λ b h. absurd (cc h);
  }

  write_with-Ends :
      (d : Driver) (r : Result WriteError (A × Db))
      → write db ≡ r
      → Ends d (write_with d.thrown d.commits db r)
  unfolding write_with
  write_with-Ends d (err e) h = stop-Ends d writing true e refl
  write_with-Ends d (ok (a, after)) h = commit-Ends d d.commits after a h

  transact-Ends :
      (d : Driver) (table_prefix : Text) (o : Option (Option ApplicationRow))
      → Ends d (transact d table_prefix write db o)
  unfolding transact
  transact-Ends d table_prefix none = stop-Ends d writing true d.thrown refl
  transact-Ends d table_prefix (some row) = elim (Bool-cases (is_prepared table_prefix row)) [
    | inl ready ↦
        subst
          (λ t. Ends d (
            if t
            then write_with d.thrown d.commits db (write db)
            else stop writing true db application_not_ready))
          (sym ready) (write_with-Ends d (write db) refl)
    | inr changed ↦
        subst
          (λ t. Ends d (
            if t
            then write_with d.thrown d.commits db (write db)
            else stop writing true db application_not_ready))
          (sym changed) (stop-Ends d writing true application_not_ready refl)
  ]

  locked_by-Ends :
      (d : Driver) (table_prefix : Text) (o : Option Bool)
      → Ends d (locked_by d table_prefix write db o)
  unfolding locked_by
  locked_by-Ends d table_prefix none = stop-Ends d not_started false d.thrown refl
  locked_by-Ends d table_prefix (some false) = stop-Ends d not_started false write_busy refl
  locked_by-Ends d table_prefix (some true) = elim (Bool-cases d.begins) [
    | inl begun ↦
        subst
          (λ t.
            Ends d (
              if t
              then transact d table_prefix write db d.reads
              else stop unknown true db d.thrown))
          (sym begun) (transact-Ends d table_prefix d.reads)
    | inr failed ↦
        subst
          (λ t.
            Ends d (
              if t
              then transact d table_prefix write db d.reads
              else stop unknown true db d.thrown))
          (sym failed) (stop-Ends d unknown true d.thrown refl)
  ]

  -- However each call of the driver ends: where the outcome is `not_started` or `rolled_back` the
  -- database is as before and an error is thrown; where it is `committed` the database holds the whole
  -- write, and a result that is returned is the write's own; in any case the database holds all of
  -- the write or nothing of it.
  pub with_application_write-IsFaithful :
      (d : Driver) (table_prefix : Text)
      → let w = with_application_write d table_prefix write db in
        IsFaithful w.outcome w.stored w.result
  unfolding with_application_write attempt
  with_application_write-IsFaithful d table_prefix = elim (Bool-cases d.connects) [
    | inl connected ↦
        subst
          (λ t. Ends d (
            if t
            then locked_by d table_prefix write db d.acquires
            else stop not_started false db d.thrown))
          (sym connected) (locked_by-Ends d table_prefix d.acquires)
    | inr failed ↦
        subst
          (λ t. Ends d (
            if t
            then locked_by d table_prefix write db d.acquires
            else stop not_started false db d.thrown))
          (sym failed) (stop-Ends d not_started false d.thrown refl)
  ]

-- the database behind the audit of a failure
module _ {Db A : Type 0} (write : Db → Result WriteError (A × Db)) (db : Db) (second : Driver)
    (table_prefix : Text) (insert : FailureCode → Db → Result WriteError (Unit {0} × Db)) where
  abbrev IsOneOf : Db → Result WriteError A → Type 0
  IsOneOf after r =
      (after ≡ db)
      ⊎ (((a : A) × (write db ≡ ok (a, after)))
          ⊎ ((e : WriteError) × (r ≡ err e) × (insert (failure_code e) db ≡ ok (tt, after))))

  undone-IsOneOf :
      (stored : Db) (e : WriteError)
      → stored ≡ db
      → IsOneOf
          (with_application_write second table_prefix (insert (failure_code e)) stored).stored
          (err e)
  undone-IsOneOf stored e same =
      elim ((with_application_write-IsFaithful (insert (failure_code e)) stored second
        table_prefix).whole) [
          | inl p ↦ inl (p ∙ same)
          | inr (u, q) ↦ inr (inr (e, refl, ap (insert (failure_code e)) (sym same) ∙ q))
        ]

  audit_failure-IsOneOf :
      (o : Outcome) (stored : Db) (r : Result WriteError A)
      → IsFaithful write db o stored r
      → IsOneOf (audit_failure second table_prefix insert o stored r) r
  unfolding audit_failure
  audit_failure-IsOneOf o stored (ok a) f = elim f.whole [ inl p ↦ inl p | inr c ↦ inr (inl c) ]
  audit_failure-IsOneOf o stored (err e) f =
      let after =
        (with_application_write second table_prefix (insert (failure_code e)) stored).stored in
      elim (Bool-cases (is_undone o)) [
        | inl undone ↦
            subst (λ t. IsOneOf (if t then after else stored) (err e)) (sym undone)
              (undone-IsOneOf stored e (f.undone undone).0)
        | inr stands ↦
            subst (λ t. IsOneOf (if t then after else stored) (err e)) (sym stands)
              (elim f.whole [ inl p ↦ inl p | inr c ↦ inr (inl c) ])
      ]

  -- However the calls of both transactions end, the database is as before, or holds the write, or
  -- holds the audit of the failure that is thrown in place of the write: never both.
  pub with_audited_application_write-cases :
      (first : Driver)
      → let r = with_audited_application_write first second table_prefix insert write db in
        (r.0 ≡ db)
        ⊎ (((a : A) × (write db ≡ ok (a, r.0)))
            ⊎ ((e : WriteError) × (r.1 ≡ err e) × (insert (failure_code e) db ≡ ok (tt, r.0))))
  unfolding with_audited_application_write
  with_audited_application_write-cases first =
      let w = with_application_write first table_prefix write db in
      audit_failure-IsOneOf w.outcome w.stored w.result
        (with_application_write-IsFaithful write db first table_prefix)

  audit_failure-ok :
      (outcome : Outcome) (stored : Db) (r : Result WriteError A) (a : A)
      → r ≡ ok a
      → audit_failure second table_prefix insert outcome stored r ≡ stored
  unfolding audit_failure
  audit_failure-ok outcome stored (ok b) a h = refl
  audit_failure-ok outcome stored (err e) a h = absurd (cc h)

  -- A result that is returned is the write's, and the database holds it.
  pub with_audited_application_write-ok :
      (first : Driver) (a : A)
      → let r = with_audited_application_write first second table_prefix insert write db in
        r.1 ≡ ok a → write db ≡ ok (a, r.0)
  unfolding with_audited_application_write
  with_audited_application_write-ok first a h =
      let w = with_application_write first table_prefix write db in
      ((with_application_write-IsFaithful write db first table_prefix).kept a h).1
      ∙ ap (λ s. ok (a, s)) (sym (audit_failure-ok w.outcome w.stored w.result a h))
