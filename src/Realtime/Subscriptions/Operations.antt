-- ===== src/Realtime/Subscriptions/Operations.antt =====
-- Sequences of the store's methods, and what they keep of each connection's state.
use ota_api.Realtime.Subscriptions.{
  Application, ConnectionState, Store, connect, connect_with, disconnect, disconnect_with,
  get_or_connect, increment_application_revisions, is_some, new_connection, put,
  subscribe_application, subscribe_user_id, unsubscribe_application, unsubscribe_application_with,
  unsubscribe_user_id, unsubscribe_user_id_with, with_application,
}
use ota_api.Realtime.Subscriptions.Queries.{
  subscribe_unique_id, unsubscribe_unique_id, unsubscribe_unique_id_with,
}
use ota_api.Prelude.{
  Bool-cases, List, Option, Text, [], arith, delete, get, get-delete, get-set, includes, inl, inr,
  nat_eq, none, option_text_eq, refl, set, some, subst, text_eq, ℕ, ◌+◌, ◌==◌, ◌∷◌, ◌≡◌, ◌≤◌,
}

-- A call of a method that changes the store.
pub data Operation : Type 0 where
  connects disconnects : Text → Operation
  subscribes_application : Text → Application → Operation
  unsubscribes_application : Text → Text → Operation
  subscribes_user_id unsubscribes_user_id : Text → Text → Operation
  subscribes_unique_id unsubscribes_unique_id : Text → Text → Text → Operation

unfoldable pub apply : Operation → Store → Store
unfolding connect disconnect subscribe_application unsubscribe_application subscribe_user_id
    unsubscribe_user_id subscribe_unique_id unsubscribe_unique_id
apply (connects socket_id) s = (connect socket_id s).0
apply (disconnects socket_id) s = disconnect socket_id s
apply (subscribes_application socket_id input) s = (subscribe_application socket_id input s).0
apply (unsubscribes_application socket_id app_name) s =
    (unsubscribe_application socket_id app_name s).0
apply (subscribes_user_id socket_id user_id) s = subscribe_user_id socket_id user_id s
apply (unsubscribes_user_id socket_id user_id) s = unsubscribe_user_id socket_id user_id s
apply (subscribes_unique_id socket_id app_name unique_id) s =
    subscribe_unique_id socket_id app_name unique_id s
apply (unsubscribes_unique_id socket_id app_name unique_id) s =
    unsubscribe_unique_id socket_id app_name unique_id s

unfoldable pub run : List Operation → Store → Store
unfolding apply
run [] s = s
run (o ∷ os) s = run os (apply o s)

-- Every entry that a map finds.
abbrev pub Every : {V : Type 0} → (Text → V → Type 0) → List (Text × V) → Type 0
Every P m = (k : Text) → (v : _) → get k m ≡ some v → P k v

module _ {V : Type 0} (P : Text → V → Type 0) where
  pub Every-set : (k : Text) (v : V) (m : List (Text × V)) → P k v → Every P m → Every P (set k v m)
  Every-set k v m p h j w e = elim (Bool-cases (k == j)) [
    | inl same ↦
        subst (λ i. P i w) ((text_eq.beq_iff k j).0 same)
          (subst (P k) (cc (get-set k j v m, same, e)) p)
    | inr other ↦ h j w (ground (arith, get-set k j v m))
  ]

  pub Every-delete : (k : Text) (m : List (Text × V)) → Every P m → Every P (delete k m)
  Every-delete k m h j w e = h j w (ground (arith, get-delete k j m))

-- A property of each connection's state, at the next generation, that the methods keep once that
-- generation is at least `least`.
pub record IsKept (least : ℕ) (P : ℕ → Text → ConnectionState → Type 0) : Type 0 where
  pub grows : (n : ℕ) (id : Text) (st : ConnectionState) → P n id st → P (n + 1) id st
  pub starts : (n : ℕ) (id : Text) → least ≤ n → P (n + 1) id (new_connection id n)
  pub subscribes :
      (n : ℕ) (id : Text) (st : ConnectionState) (input : Application)
      → P n id st
      → P n id (with_application input st)
  pub unsubscribes :
      (n : ℕ) (id : Text) (st : ConnectionState) (app_name : Text)
      → P n id st
      → P n id (record st { applications = delete app_name st.applications })
  pub increments :
      (n : ℕ) (id : Text) (st : ConnectionState) (users : List Text)
      → P n id st
      → P n id (increment_application_revisions (record st { user_ids = users }))
  pub marks :
      (n : ℕ) (id : Text) (st : ConnectionState) (uniques : List (Text × Text))
      → P n id st
      → P n id (record st { unique_ids = uniques })

module _ (least : ℕ) (P : ℕ → Text → ConnectionState → Type 0) (kept : IsKept least P) where
  abbrev pub Throughout : Store → Type 0
  Throughout s = (least ≤ s.next_generation) × Every (P s.next_generation) s.connections

  put-Throughout :
      (id : Text) (st : ConnectionState) (s : Store)
      → P s.next_generation id st
      → Throughout s
      → Throughout (put st id s)
  put-Throughout id st s p (l, h) = (l, Every-set (P s.next_generation) id st s.connections p h)

  connect_with-Throughout :
      (id : Text) (s : Store) (o : Option ConnectionState)
      → get id s.connections ≡ o
      → Throughout s
      → let r = connect_with id s o in Throughout r.0 × P r.0.next_generation id r.1
  unfolding connect_with
  connect_with-Throughout id s (some st) e (l, h) = ((l, h), h id st e)
  connect_with-Throughout id s none e (l, h) =
      let p = kept.starts s.next_generation id l in
      (
        (
          omega (arith, l),
          Every-set (P (s.next_generation + 1)) id _ s.connections p
              λ k v q. kept.grows _ k v (h k v q),
        ),
        p,
      )

  get_or_connect-Throughout :
      (id : Text) (s : Store)
      → Throughout s
      → let r = get_or_connect id s in Throughout r.0 × P r.0.next_generation id r.1
  unfolding get_or_connect
  get_or_connect-Throughout id s h = connect_with-Throughout id s _ refl h

  disconnect_with-Throughout :
      (id : Text) (s : Store) (o : Option ConnectionState)
      → Throughout s
      → Throughout (disconnect_with id s o)
  unfolding disconnect_with
  disconnect_with-Throughout id s none h = h
  disconnect_with-Throughout id s (some st) (l, h) =
      (l, Every-delete (P s.next_generation) id s.connections h)

  unsubscribe_application_with-Throughout :
      (id app_name : Text) (s : Store) (o : Option ConnectionState)
      → get id s.connections ≡ o
      → Throughout s
      → Throughout (unsubscribe_application_with id app_name s o).0
  unfolding unsubscribe_application_with
  unsubscribe_application_with-Throughout id app_name s none e h = h
  unsubscribe_application_with-Throughout id app_name s (some st) e h =
      elim (Bool-cases (is_some (get app_name st.applications))) [
        | inl there ↦
            rw there (put-Throughout id _ s (kept.unsubscribes _ id st app_name (h.1 id st e)) h)
        | inr missing ↦ rw missing h
      ]

  unsubscribe_user_id_with-Throughout :
      (id user_id : Text) (s : Store) (o : Option ConnectionState)
      → get id s.connections ≡ o
      → Throughout s
      → Throughout (unsubscribe_user_id_with id user_id s o)
  unfolding unsubscribe_user_id_with
  unsubscribe_user_id_with-Throughout id user_id s none e h = h
  unsubscribe_user_id_with-Throughout id user_id s (some st) e h =
      elim (Bool-cases (includes st.user_ids user_id)) [
        | inl there ↦ rw there (put-Throughout id _ s (kept.increments _ id st _ (h.1 id st e)) h)
        | inr missing ↦ rw missing h
      ]

  unsubscribe_unique_id_with-Throughout :
      (id app_name unique_id : Text) (s : Store) (o : Option ConnectionState)
      → get id s.connections ≡ o
      → Throughout s
      → Throughout (unsubscribe_unique_id_with id app_name unique_id s o)
  unfolding unsubscribe_unique_id_with
  unsubscribe_unique_id_with-Throughout id app_name unique_id s none e h = h
  unsubscribe_unique_id_with-Throughout id app_name unique_id s (some st) e h =
      put-Throughout id _ s (kept.marks _ id st _ (h.1 id st e)) h

  apply-Throughout : (o : Operation) (s : Store) → Throughout s → Throughout (apply o s)
  unfolding apply connect disconnect subscribe_application unsubscribe_application subscribe_user_id
      unsubscribe_user_id subscribe_unique_id unsubscribe_unique_id
  apply-Throughout (connects id) s h = (get_or_connect-Throughout id s h).0
  apply-Throughout (disconnects id) s h = disconnect_with-Throughout id s _ h
  apply-Throughout (subscribes_application id input) s h =
      let (g, p) = get_or_connect-Throughout id s h in
      put-Throughout id _ (get_or_connect id s).0 (kept.subscribes _ id _ input p) g
  apply-Throughout (unsubscribes_application id app_name) s h =
      unsubscribe_application_with-Throughout id app_name s _ refl h
  apply-Throughout (subscribes_user_id id user_id) s h =
      let (g, p) = get_or_connect-Throughout id s h in
      put-Throughout id _ (get_or_connect id s).0 (kept.increments _ id _ _ p) g
  apply-Throughout (unsubscribes_user_id id user_id) s h =
      unsubscribe_user_id_with-Throughout id user_id s _ refl h
  apply-Throughout (subscribes_unique_id id app_name unique_id) s h =
      let (g, p) = get_or_connect-Throughout id s h in
      put-Throughout id _ (get_or_connect id s).0 (kept.marks _ id _ _ p) g
  apply-Throughout (unsubscribes_unique_id id app_name unique_id) s h =
      unsubscribe_unique_id_with-Throughout id app_name unique_id s _ refl h

  pub run-Throughout : (os : List Operation) (s : Store) → Throughout s → Throughout (run os s)
  unfolding run
  run-Throughout [] s h = h
  run-Throughout (o ∷ os) s h = run-Throughout os (apply o s) (apply-Throughout o s h)
