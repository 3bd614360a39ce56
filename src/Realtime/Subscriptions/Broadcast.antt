-- ===== src/Realtime/Subscriptions/Broadcast.antt =====
-- What a broadcast to an application reaches, after any calls of the store's methods.
use ota_api.Realtime.Subscriptions.{
  ApplicationSubscriber, ConnectionState, Store, connect, disconnect, disconnect_with,
  get_or_connect, is_some, no_connections, subscribe_application, subscribe_user_id,
  unsubscribe_application, unsubscribe_application_with, unsubscribe_user_id,
  unsubscribe_user_id_with,
}
use ota_api.Realtime.Subscriptions.Queries.{
  gather, get_application_subscriber, get_application_subscribers, subscribe_unique_id,
  unsubscribe_unique_id, unsubscribe_unique_id_with,
}
use ota_api.Realtime.Subscriptions.Operations.{
  Operation, apply, connects, disconnects, run, subscribes_application, subscribes_unique_id,
  subscribes_user_id, unsubscribes_application, unsubscribes_unique_id, unsubscribes_user_id,
}
use ota_api.Realtime.Subscriptions.Indexes.{IsIndexed, leads}
use ota_api.Realtime.Subscriptions.Indexes.Changes.{
  added-IsIndexed, connect_with-IsIndexed, disconnected-IsIndexed, marked-IsIndexed,
  removed-IsIndexed, subscribed-IsIndexed, unsubscribed-IsIndexed,
}
use ota_api.Prelude.{
  Bool-cases, In, In_of_includes, List, Option, Option-cases, Text, [], ap, get, includes, inl, inr,
  map, nat_eq, none, option_text_eq, refl, some, subst, sym, text_eq, true, ◌↔◌, ◌∙◌, ◌∷◌, ◌≡◌,
}

get_or_connect-IsIndexed :
    (id : Text) (s : Store)
    → IsIndexed s
    → let r = get_or_connect id s in IsIndexed r.0 × (get id r.0.connections ≡ some r.1)
unfolding get_or_connect
get_or_connect-IsIndexed id s h = connect_with-IsIndexed id s _ refl h

unsubscribe_application_with-IsIndexed :
    (id app_name : Text) (s : Store) (o : Option ConnectionState)
    → get id s.connections ≡ o
    → IsIndexed s
    → IsIndexed (unsubscribe_application_with id app_name s o).0
unfolding unsubscribe_application_with
unsubscribe_application_with-IsIndexed id app_name s none e h = h
unsubscribe_application_with-IsIndexed id app_name s (some st) e h =
    elim (Bool-cases (is_some (get app_name st.applications))) [
      | inl there ↦ rw there (unsubscribed-IsIndexed id s st e h app_name)
      | inr missing ↦ rw missing h
    ]

unsubscribe_user_id_with-IsIndexed :
    (id user_id : Text) (s : Store) (o : Option ConnectionState)
    → get id s.connections ≡ o
    → IsIndexed s
    → IsIndexed (unsubscribe_user_id_with id user_id s o)
unfolding unsubscribe_user_id_with
unsubscribe_user_id_with-IsIndexed id user_id s none e h = h
unsubscribe_user_id_with-IsIndexed id user_id s (some st) e h =
    elim (Bool-cases (includes st.user_ids user_id)) [
      | inl there ↦ rw there (removed-IsIndexed id s st e h user_id)
      | inr missing ↦ rw missing h
    ]

unsubscribe_unique_id_with-IsIndexed :
    (id app_name unique_id : Text) (s : Store) (o : Option ConnectionState)
    → get id s.connections ≡ o
    → IsIndexed s
    → IsIndexed (unsubscribe_unique_id_with id app_name unique_id s o)
unfolding unsubscribe_unique_id_with
unsubscribe_unique_id_with-IsIndexed id app_name unique_id s none e h = h
unsubscribe_unique_id_with-IsIndexed id app_name unique_id s (some st) e h =
    marked-IsIndexed id s st e h _

disconnect_with-IsIndexed :
    (id : Text) (s : Store) (o : Option ConnectionState)
    → get id s.connections ≡ o
    → IsIndexed s
    → IsIndexed (disconnect_with id s o)
unfolding disconnect_with
disconnect_with-IsIndexed id s none e h = h
disconnect_with-IsIndexed id s (some st) e h = disconnected-IsIndexed id s st e h

apply-IsIndexed : (o : Operation) (s : Store) → IsIndexed s → IsIndexed (apply o s)
unfolding apply connect disconnect subscribe_application unsubscribe_application subscribe_user_id
    unsubscribe_user_id subscribe_unique_id unsubscribe_unique_id
apply-IsIndexed (connects id) s h = (get_or_connect-IsIndexed id s h).0
apply-IsIndexed (disconnects id) s h = disconnect_with-IsIndexed id s _ refl h
apply-IsIndexed (subscribes_application id input) s h =
    let (g, e) = get_or_connect-IsIndexed id s h in
    subscribed-IsIndexed id (get_or_connect id s).0 _ e g input
apply-IsIndexed (unsubscribes_application id app_name) s h =
    unsubscribe_application_with-IsIndexed id app_name s _ refl h
apply-IsIndexed (subscribes_user_id id user_id) s h =
    let (g, e) = get_or_connect-IsIndexed id s h in
    added-IsIndexed id (get_or_connect id s).0 _ e g user_id
apply-IsIndexed (unsubscribes_user_id id user_id) s h =
    unsubscribe_user_id_with-IsIndexed id user_id s _ refl h
apply-IsIndexed (subscribes_unique_id id app_name unique_id) s h =
    let (g, e) = get_or_connect-IsIndexed id s h in
    marked-IsIndexed id (get_or_connect id s).0 _ e g _
apply-IsIndexed (unsubscribes_unique_id id app_name unique_id) s h =
    unsubscribe_unique_id_with-IsIndexed id app_name unique_id s _ refl h

run-IsIndexed : (os : List Operation) (s : Store) → IsIndexed s → IsIndexed (run os s)
unfolding run
run-IsIndexed [] s h = h
run-IsIndexed (o ∷ os) s h = run-IsIndexed os (apply o s) (apply-IsIndexed o s h)

-- the results of a function that are there
module _ (f : Text → Option ApplicationSubscriber) where
  In-gather_from :
      (x : ApplicationSubscriber) (ids : List Text)
      → In x (gather (map f ids))
      → (id : Text) × (f id ≡ some x)
  unfolding gather
  In-gather_from x [] h = elim h [ ]
  In-gather_from x (id ∷ ids) h = elim (Option-cases (f id)) [
    | inl e ↦ In-gather_from x ids (subst (λ o. In x (gather (o ∷ map f ids))) e h)
    | inr (y, e) ↦ elim (subst (λ o. In x (gather (o ∷ map f ids))) e h) [
      | inl p ↦ (id, e ∙ ap some (sym p))
      | inr m ↦ In-gather_from x ids m
    ]
  ]

  In-gather_to :
      (x : ApplicationSubscriber) (id : Text) (ids : List Text)
      → In id ids
      → f id ≡ some x
      → In x (gather (map f ids))
  unfolding gather
  In-gather_to x id [] m e = elim m [ ]
  In-gather_to x id (j ∷ ids) (inl p) e =
      subst (λ o. In x (gather (o ∷ map f ids))) (sym e ∙ ap f p) (inl refl)
  In-gather_to x id (j ∷ ids) (inr m) e = elim (Option-cases (f j)) [
    | inl q ↦ subst (λ o. In x (gather (o ∷ map f ids))) (sym q) (In-gather_to x id ids m e)
    | inr (y, q) ↦
        subst (λ o. In x (gather (o ∷ map f ids))) (sym q) (inr (In-gather_to x id ids m e))
  ]

leads-get :
    (id app_name : Text) (s : Store)
    → IsIndexed s
    → leads app_name id s.application_sockets ≡ is_some (get_application_subscriber id app_name s)
unfolding get_application_subscriber
leads-get id app_name s h = (h app_name id).0 ∙ elim (Option-cases (get id s.connections)) [
  | inl missing ↦ rw missing refl
  | inr (st, there) ↦ elim (Option-cases (get app_name st.applications)) [
    | inl missing ↦ rw (there, missing) refl
    | inr (a, found) ↦ rw (there, found) refl
  ]
]

led :
    (id app_name : Text) (s : Store) (x : ApplicationSubscriber)
    → IsIndexed s
    → get_application_subscriber id app_name s ≡ some x
    → leads app_name id s.application_sockets ≡ true
led id app_name s x h e = leads-get id app_name s h ∙ ap is_some e

-- After any calls of the store's methods from the empty store on, the index of an application leads to
-- exactly the sockets that subscribe to it, and the subscribers listed for the application are those of
-- some socket that subscribes to it, and no others.
pub get_application_subscribers_iff :
    (os : List Operation) (app_name socket_id : Text) (x : ApplicationSubscriber)
    → (leads app_name socket_id (run os no_connections).application_sockets
        ≡ is_some (get_application_subscriber socket_id app_name (run os no_connections)))
      × (In x (get_application_subscribers app_name (run os no_connections))
          ↔ (id : Text) × (get_application_subscriber id app_name (run os no_connections) ≡ some x))
unfolding get_application_subscribers get
get_application_subscribers_iff os app_name socket_id x =
    let s = run os no_connections in
    let h : IsIndexed s = run-IsIndexed os no_connections (λ key id. (refl, refl)) in
    (
      leads-get socket_id app_name s h,
      (
        In-gather_from (λ id. get_application_subscriber id app_name s) x _,
        λ (id, e).
            In-gather_to (λ i. get_application_subscriber i app_name s) x id _
              (In_of_includes _ id (led id app_name s x h e)) e,
      ),
    )
