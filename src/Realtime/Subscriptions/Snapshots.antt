-- ===== src/Realtime/Subscriptions/Snapshots.antt =====
-- A subscriber that was taken from the store against the store at a later time.
use ota_api.Realtime.Subscriptions.{
  ApplicationSubscriber, ApplicationSubscription, ConnectionState, Store, no_connections,
  to_subscriber,
}
use ota_api.Realtime.Subscriptions.Queries.{get_application_subscriber, is_current}
use ota_api.Realtime.Subscriptions.Operations.{Every, Operation, run, run-Throughout}
use ota_api.Realtime.Subscriptions.Tracking.{Fits, IsSound, kept-Fits, kept-IsSound}
use ota_api.Prelude.{
  List, Option-cases, Text, ap, arith, get, inl, inr, nat_eq, option_text_eq, refl, some, subst,
  sym, text_eq, true, ◌+◌, ◌<◌, ◌↔◌, ◌∙◌, ◌≡◌, ◌≤◌,
}

subscriber_of-eq-some :
    (id app_name : Text) (s : Store) (x : ApplicationSubscriber)
    → get_application_subscriber id app_name s ≡ some x
    → (st : ConnectionState) × (a : ApplicationSubscription) × (get id s.connections ≡ some st)
      × (get app_name st.applications ≡ some a)
      × (to_subscriber st a ≡ x)
unfolding get_application_subscriber
subscriber_of-eq-some id app_name s x e = elim (Option-cases (get id s.connections)) [
  | inl missing ↦ absurd (cc (e, missing))
  | inr (st, there) ↦ elim (Option-cases (get app_name st.applications)) [
    | inl missing ↦ absurd (ground (arith, e, there, missing))
    | inr (a, found) ↦ (st, a, there, found, ground (arith, e, there, found))
  ]
]

is_current_from :
    (x : ApplicationSubscriber) (s : Store)
    → Every (Fits x s.next_generation) s.connections
    → is_current x s ≡ true
    → get_application_subscriber x.socket_id x.application.input.app_name s ≡ some x
unfolding is_current get_application_subscriber
is_current_from x s fits e = elim (Option-cases (get x.socket_id s.connections)) [
  | inl missing ↦ absurd (ground (arith, e, missing))
  | inr (st, there) ↦ elim (Option-cases (get x.application.input.app_name st.applications)) [
    | inl missing ↦ absurd (ground (arith, e, there, missing))
    | inr (a, found) ↦
        rw (there, found)
          (ap some (
            (fits x.socket_id st there (ground (arith, e, there)) refl).1 a found
              (ground (arith, e, there, found))))
  ]
]

Fits-taken :
    (id : Text) (s : Store) (x : ApplicationSubscriber) (st : ConnectionState)
    (a : ApplicationSubscription)
    → get id s.connections ≡ some st
    → get x.application.input.app_name st.applications ≡ some a
    → to_subscriber st a ≡ x
    → IsSound s.next_generation id st
    → x.socket_id ≡ id
    → (x.generation + 1 ≤ s.next_generation) × Every (Fits x s.next_generation) s.connections
unfolding to_subscriber
Fits-taken id s x st a there found same h owned =
    let p : st.generation ≡ x.generation = ap (λ (y : ApplicationSubscriber). y.generation) same in
    let q : a ≡ x.application = ap (λ (y : ApplicationSubscriber). y.application) same in
    (
      omega (arith, h.earlier, p),
      λ k u e g o.
          let v : st ≡ u = cc (there, e, o, owned) in
          (
            subst (λ (w : ConnectionState). x.application.revision < w.next_subscription_revision) v
                (omega (
                  arith,
                  (h.given _ a found).1,
                  ap (λ (b : ApplicationSubscription). b.revision) q,
                )),
            λ b f r.
                let w : a ≡ b = cc (found, f, ap (λ (y : ConnectionState). y.applications) v) in
                ap (λ y. to_subscriber y b) (sym v) ∙ ap (to_subscriber st) (sym w) ∙ same,
          ),
    )

is_current_to :
    (id app_name : Text) (x : ApplicationSubscriber) (s : Store)
    → x.socket_id ≡ id
    → x.application.input.app_name ≡ app_name
    → get_application_subscriber id app_name s ≡ some x
    → is_current x s ≡ true
unfolding is_current to_subscriber
is_current_to id app_name x s owned named e =
    let (st, a, there, found, same) = subscriber_of-eq-some id app_name s x e in
    let p : st.generation ≡ x.generation = ap (λ (y : ApplicationSubscriber). y.generation) same in
    let q : a.revision ≡ x.application.revision =
      ap (λ (y : ApplicationSubscriber). y.application.revision) same in
    rw (owned, there, named, found)
      (ground (
        arith,
        p,
        q,
        nat_eq.beq_iff st.generation x.generation,
        nat_eq.beq_iff a.revision x.application.revision,
      ))

-- Methods called from the empty store on, a subscriber `x` of a socket and an application taken,
-- and more methods called: `isCurrent` holds exactly where the same query now returns `x` itself, with
-- the same application, version, revision and matching users.
pub is_current_iff :
    (before after : List Operation) (id app_name : Text) (x : ApplicationSubscriber)
    → get_application_subscriber id app_name (run before no_connections) ≡ some x
    → (is_current x (run after (run before no_connections)) ≡ true)
      ↔ (get_application_subscriber id app_name (run after (run before no_connections)) ≡ some x)
unfolding get_application_subscriber is_current to_subscriber get
is_current_iff before after id app_name x taken =
    let s = run before no_connections in
    let sound =
      run-Throughout 0 IsSound kept-IsSound before no_connections
        (omega arith, λ k v e. absurd (cc e)) in
    let (st, a, there, found, same) = subscriber_of-eq-some id app_name s x taken in
    let h = sound.1 id st there in
    let named : x.application.input.app_name ≡ app_name =
      ap (λ (y : ApplicationSubscriber). y.application.input.app_name) (sym same)
      ∙ (h.given app_name a found).0 in
    let owned : x.socket_id ≡ id =
      ap (λ (y : ApplicationSubscriber). y.socket_id) (sym same) ∙ h.own in
    let start = Fits-taken id s x st a there (rw named found) same h owned in
    let later = run-Throughout (x.generation + 1) (Fits x) (kept-Fits x) after s start in
    (
      λ e.
          subst (λ k. get_application_subscriber k app_name (run after s) ≡ some x) owned
            (subst (λ n. get_application_subscriber x.socket_id n (run after s) ≡ some x) named
              (is_current_from x (run after s) later.1 e)),
      is_current_to id app_name x (run after s) owned named,
    )
