-- ===== src/Realtime/Subscriptions/Queries.antt =====
-- src/realtime/subscriptions/connection-subscription.store.ts: the unique identifiers and the queries.
use ota_api.Realtime.Subscriptions.{
  ApplicationSubscriber, ApplicationSubscription, ConnectionState, Store, get_or_connect, or_empty,
  put, to_subscriber,
}
use ota_api.Prelude.{
  Bool, Eq, List, Option, Text, [], add, arith, false, filter, get, includes, keys, map, nat_eq,
  none, option_text_eq, remove, some, starts_with, text, text_eq, true, ℕ, ◌&&◌, ◌++◌, ◌==◌, ◌∷◌,
}

instance pub pair_eq : Eq (Text × Text)
pair_eq = record {
  beq = λ p q. p.0 == q.0 && p.1 == q.1;
  beq_iff = λ p q. ground (arith, text_eq.beq_iff p.0 q.0, text_eq.beq_iff p.1 q.1);
}

unfoldable pub subscribe_unique_id : Text → Text → Text → Store → Store
unfolding get_or_connect
subscribe_unique_id socket_id app_name unique_id s =
    let (t, state) = get_or_connect socket_id s in
    put (record state { unique_ids = add (app_name, unique_id) state.unique_ids }) socket_id t

unfoldable pub unsubscribe_unique_id_with :
    Text → Text → Text → Store → Option ConnectionState → Store
unsubscribe_unique_id_with socket_id app_name unique_id s none = s
unsubscribe_unique_id_with socket_id app_name unique_id s (some state) =
    put (record state { unique_ids = remove (app_name, unique_id) state.unique_ids }) socket_id s

unfoldable pub unsubscribe_unique_id : Text → Text → Text → Store → Store
unfolding unsubscribe_unique_id_with
unsubscribe_unique_id socket_id app_name unique_id s =
    unsubscribe_unique_id_with socket_id app_name unique_id s (get socket_id s.connections)

abbrev pub has_unique_id_with : Text → Text → Option ConnectionState → Bool
has_unique_id_with app_name unique_id none = false
has_unique_id_with app_name unique_id (some state) = includes state.unique_ids (app_name, unique_id)

abbrev pub has_unique_id : Text → Text → Text → Store → Bool
has_unique_id socket_id app_name unique_id s =
    has_unique_id_with app_name unique_id (get socket_id s.connections)

abbrev pub has_user_id_with : Text → Option ConnectionState → Bool
has_user_id_with user_id none = false
has_user_id_with user_id (some state) = includes state.user_ids user_id

abbrev pub has_user_id : Text → Text → Store → Bool
has_user_id socket_id user_id s = has_user_id_with user_id (get socket_id s.connections)

-- `state?.applications.get(appName)`
abbrev pub application_of : Text → Option ConnectionState → Option ApplicationSubscription
application_of app_name none = none
application_of app_name (some state) = get app_name state.applications

abbrev pub subscriber_of :
    Option ConnectionState → Option ApplicationSubscription → Option ApplicationSubscriber
subscriber_of (some state) (some application) = some (to_subscriber state application)
subscriber_of _ _ = none

unfoldable pub get_application_subscriber : Text → Text → Store → Option ApplicationSubscriber
unfolding to_subscriber
get_application_subscriber socket_id app_name s =
    let state = get socket_id s.connections in subscriber_of state (application_of app_name state)

-- the results that are there, in order
unfoldable pub gather : List (Option ApplicationSubscriber) → List ApplicationSubscriber
gather [] = []
gather (none ∷ xs) = gather xs
gather (some x ∷ xs) = x ∷ gather xs

unfoldable pub get_application_subscribers : Text → Store → List ApplicationSubscriber
unfolding gather get_application_subscriber
get_application_subscribers app_name s = gather (
    map (λ socket_id. get_application_subscriber socket_id app_name s)
      (or_empty (get app_name s.application_sockets)))

abbrev pub applications_of : Option ConnectionState → List Text
applications_of none = []
applications_of (some state) = keys state.applications

unfoldable pub get_connection_applications : Text → Store → List Text
get_connection_applications socket_id s = applications_of (get socket_id s.connections)

abbrev pub is_user_of : Option Text → Text → Bool
is_user_of none user_id = true
is_user_of (some []) user_id = true
is_user_of (some app_name) user_id = starts_with user_id (app_name ++ text ":")

-- `sort` is `localeCompare`'s order
unfoldable pub get_subscribed_user_ids : (List Text → List Text) → Option Text → Store → List Text
get_subscribed_user_ids sort app_name s =
    sort (filter (is_user_of app_name) (keys s.user_id_sockets))

abbrev pub has_generation : ℕ → Option ConnectionState → Bool
has_generation generation none = false
has_generation generation (some state) = state.generation == generation

abbrev pub is_revision : ℕ → Option ApplicationSubscription → Bool
is_revision revision none = false
is_revision revision (some application) = application.revision == revision

unfoldable pub is_current : ApplicationSubscriber → Store → Bool
is_current subscriber s =
    let state = get subscriber.socket_id s.connections in
    has_generation subscriber.generation state
    && is_revision subscriber.application.revision
        (application_of subscriber.application.input.app_name state)
