-- ===== src/Realtime/Subscriptions/Indexes/Changes.antt =====
-- The indexes behind each change of one connection's state.
use ota_api.Realtime.Subscriptions.{
  Application, ConnectionState, Store, add_to_index, connect_with, disconnect_with,
  increment_application_revisions, is_some, new_connection, put, remove_from_index,
  with_application,
}
use ota_api.Realtime.Subscriptions.Indexes.{
  IsIndexed, is_some-get, is_some-renumber, leads, leads-add_to_index, leads-remove_all,
  leads-remove_from_index,
}
use ota_api.Prelude.{
  Bool-cases, List, Option, Text, add, arith, delete, get, get-delete, get-set, if◌then◌else◌,
  includes, includes-add, includes-remove, inl, inr, keys, nat_eq, none, option_text_eq, refl,
  remove, some, sym, text_eq, true, ◌==◌, ◌∙◌, ◌≡◌,
}

-- One connection's state put in place, with both indexes changed.
put-IsIndexed :
    (id : Text) (st : ConnectionState) (s : Store) (apps users : List (Text × List Text))
    → ((key i : Text)
        → leads key i apps ≡ (
            if id == i
            then is_some (get key st.applications)
            else leads key i s.application_sockets))
    → ((key i : Text)
        → leads key i users
          ≡ (if id == i then includes st.user_ids key else leads key i s.user_id_sockets))
    → IsIndexed s
    → IsIndexed (record (put st id s) { application_sockets = apps; user_id_sockets = users })
put-IsIndexed id st s apps users a u h key i = elim (Bool-cases (id == i)) [
  | inl same ↦
      rw (get-set id i st s.connections, same) (a key i ∙ rw same refl, u key i ∙ rw same refl)
  | inr other ↦
      rw (get-set id i st s.connections, other)
        (a key i ∙ rw other (h key i).0, u key i ∙ rw other (h key i).1)
]

-- the state of a socket, and the indexes at it
module _ (id : Text) (s : Store) (st : ConnectionState) (there : get id s.connections ≡ some st)
    (h : IsIndexed s) where
  at_applications :
      (key i : Text)
      → (id == i) ≡ true
      → leads key i s.application_sockets ≡ is_some (get key st.applications)
  at_applications key i same = (h key i).0 ∙ rw (sym ((text_eq.beq_iff id i).0 same), there) refl

  at_users :
      (key i : Text) → (id == i) ≡ true → leads key i s.user_id_sockets ≡ includes st.user_ids key
  at_users key i same = (h key i).1 ∙ rw (sym ((text_eq.beq_iff id i).0 same), there) refl

  same_applications :
      (key i : Text)
      → leads key i s.application_sockets
        ≡ (if id == i then is_some (get key st.applications) else leads key i s.application_sockets)
  same_applications key i = elim (Bool-cases (id == i)) [
    | inl same ↦ rw same (at_applications key i same)
    | inr other ↦ rw other refl
  ]

  same_users :
      (key i : Text)
      → leads key i s.user_id_sockets
        ≡ (if id == i then includes st.user_ids key else leads key i s.user_id_sockets)
  same_users key i = elim (Bool-cases (id == i)) [
    | inl same ↦ rw same (at_users key i same)
    | inr other ↦ rw other refl
  ]

  pub subscribed-IsIndexed :
      (input : Application)
      → IsIndexed (record (put (with_application input st) id s) {
        application_sockets = add_to_index input.app_name id s.application_sockets;
      })
  subscribed-IsIndexed input =
      put-IsIndexed id (with_application input st) s _ _
        (λ key i. ground (
          arith,
          leads-add_to_index input.app_name id s.application_sockets key i,
          at_applications key i,
          get-set input.app_name key
              (record { input = input; revision = st.next_subscription_revision }) st.applications,
        ))
        same_users h

  pub unsubscribed-IsIndexed :
      (app_name : Text)
      → IsIndexed
          (record (put (record st { applications = delete app_name st.applications }) id s) {
            application_sockets = remove_from_index app_name id s.application_sockets;
          })
  unsubscribed-IsIndexed app_name =
      put-IsIndexed id (record st { applications = delete app_name st.applications }) s _ _
        (λ key i. ground (
          arith,
          leads-remove_from_index app_name id s.application_sockets key i,
          at_applications key i,
          get-delete app_name key st.applications,
        ))
        same_users h

  renumbered :
      (users : List Text) (key i : Text)
      → leads key i s.application_sockets ≡ (
          if id == i
          then is_some (
              get key
                (increment_application_revisions (record st { user_ids = users })).applications)
          else leads key i s.application_sockets)
  unfolding increment_application_revisions
  renumbered users key i =
      rw (is_some-renumber st.next_subscription_revision st.applications key)
        (same_applications key i)

  pub added-IsIndexed :
      (user_id : Text)
      → IsIndexed
          (record (put
            (increment_application_revisions (record st { user_ids = add user_id st.user_ids }))
            id
            s) { user_id_sockets = add_to_index user_id id s.user_id_sockets })
  unfolding increment_application_revisions
  added-IsIndexed user_id =
      put-IsIndexed id
        (increment_application_revisions (record st { user_ids = add user_id st.user_ids })) s _ _
        (renumbered (add user_id st.user_ids))
        (λ key i. ground (
          arith,
          leads-add_to_index user_id id s.user_id_sockets key i,
          at_users key i,
          includes-add user_id key st.user_ids,
        ))
        h

  pub removed-IsIndexed :
      (user_id : Text)
      → IsIndexed
          (record (put
            (increment_application_revisions (record st { user_ids = remove user_id st.user_ids }))
            id
            s) { user_id_sockets = remove_from_index user_id id s.user_id_sockets })
  unfolding increment_application_revisions
  removed-IsIndexed user_id =
      put-IsIndexed id
        (increment_application_revisions (record st { user_ids = remove user_id st.user_ids })) s _
        _ (renumbered (remove user_id st.user_ids))
        (λ key i. ground (
          arith,
          leads-remove_from_index user_id id s.user_id_sockets key i,
          at_users key i,
          includes-remove user_id key st.user_ids,
        ))
        h

  pub marked-IsIndexed :
      (uniques : List (Text × Text)) → IsIndexed (put (record st { unique_ids = uniques }) id s)
  marked-IsIndexed uniques =
      put-IsIndexed id (record st { unique_ids = uniques }) s _ _ same_applications same_users h

  pub disconnected-IsIndexed : IsIndexed (disconnect_with id s (some st))
  unfolding disconnect_with
  disconnected-IsIndexed key i = elim (Bool-cases (id == i)) [
    | inl same ↦
        rw (get-delete id i s.connections, same)
          (
            ground (
              arith,
              leads-remove_all (keys st.applications) id s.application_sockets key i,
              at_applications key i same,
              is_some-get st.applications key,
              same,
            ),
            ground (
              arith,
              leads-remove_all st.user_ids id s.user_id_sockets key i,
              at_users key i same,
              same,
            ),
          )
    | inr other ↦
        rw (get-delete id i s.connections, other)
          (
            ground (
              arith,
              leads-remove_all (keys st.applications) id s.application_sockets key i,
              (h key i).0,
              other,
            ),
            ground (
              arith,
              leads-remove_all st.user_ids id s.user_id_sockets key i,
              (h key i).1,
              other,
            ),
          )
  ]

pub connect_with-IsIndexed :
    (id : Text) (s : Store) (o : Option ConnectionState)
    → get id s.connections ≡ o
    → IsIndexed s
    → let r = connect_with id s o in IsIndexed r.0 × (get id r.0.connections ≡ some r.1)
unfolding connect_with new_connection get
connect_with-IsIndexed id s (some st) e h = (h, e)
connect_with-IsIndexed id s none e h =
    let st = new_connection id s.next_generation in
    let bare : (i : Text) → (id == i) ≡ true → get i s.connections ≡ none =
      λ i same. rw (sym ((text_eq.beq_iff id i).0 same)) e in
    (
      put-IsIndexed id st s s.application_sockets s.user_id_sockets
          (λ key i. ground (arith, (h key i).0, bare i))
          (λ key i. ground (arith, (h key i).1, bare i)) h,
      get-set id id st s.connections ∙ rw ((text_eq.beq_iff id id).1 refl) refl,
    )
