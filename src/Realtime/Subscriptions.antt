-- ===== src/Realtime/Subscriptions.antt =====
-- src/realtime/subscriptions/connection-subscription.store.ts: the subscriptions of each socket, with
-- the indexes from applications and users to sockets. Each method takes the store and returns it.
pub mod Queries
pub mod Operations
pub mod Tracking
pub mod Snapshots
pub mod Indexes
pub mod Broadcast
pub mod Tests
use ota_api.Contracts.UserId.{user_id_matches_context}
use ota_api.Prelude.{
  Bool, List, Option, Text, [], add, delete, false, filter, get, if◌then◌else◌, includes, is_empty,
  keys, length, nat_eq, none, option_text_eq, remove, set, some, text_eq, true, ℕ, ◌+◌, ◌∷◌,
}

-- a subscription's input
pub record Application : Type 0 where
  pub app_name : Text
  pub platform : Text
  pub architecture : Option Text
  pub distribution_channel : Option Text
  pub current_version : Text
  pub installed_release_sequence : ℕ

pub record ApplicationSubscription : Type 0 where
  pub input : Application
  pub revision : ℕ

pub record ApplicationSubscriber : Type 0 where
  pub socket_id : Text
  pub generation : ℕ
  pub application : ApplicationSubscription
  pub user_ids : List Text

-- `JSON.stringify([appName, uniqueId])` tells any two pairs apart, so the pair is the key itself
pub record ConnectionState : Type 0 where
  pub socket_id : Text
  pub generation : ℕ
  pub next_subscription_revision : ℕ
  pub user_ids : List Text
  pub unique_ids : List (Text × Text)
  pub applications : List (Text × ApplicationSubscription)

pub record Store : Type 0 where
  pub connections : List (Text × ConnectionState)
  pub application_sockets : List (Text × List Text)
  pub user_id_sockets : List (Text × List Text)
  pub next_generation : ℕ

abbrev pub no_connections : Store
no_connections = record {
  connections = [];
  application_sockets = [];
  user_id_sockets = [];
  next_generation = 1;
}

-- `?? new Set()`
abbrev pub or_empty : Option (List Text) → List Text
or_empty none = []
or_empty (some xs) = xs

abbrev pub is_some : {A : Type 0} → Option A → Bool
is_some none = false
is_some (some a) = true

unfoldable pub add_to_index : Text → Text → List (Text × List Text) → List (Text × List Text)
add_to_index key socket_id index = set key (add socket_id (or_empty (get key index))) index

unfoldable pub remove_from_index : Text → Text → List (Text × List Text) → List (Text × List Text)
remove_from_index key socket_id index =
    let left = remove socket_id (or_empty (get key index)) in
    if is_empty left then delete key index else set key left index

unfoldable pub new_connection : Text → ℕ → ConnectionState
new_connection socket_id generation = record {
  socket_id = socket_id;
  generation = generation;
  next_subscription_revision = 1;
  user_ids = [];
  unique_ids = [];
  applications = [];
}

-- `getOrConnect`: the store after `connect`, and the state that it then holds for the socket
unfoldable pub connect_with : Text → Store → Option ConnectionState → Store × ConnectionState
unfolding new_connection
connect_with socket_id s (some existing) = (s, existing)
connect_with socket_id s none =
    let state = new_connection socket_id s.next_generation in
    (
      record s {
        connections = set socket_id state s.connections;
        next_generation = s.next_generation + 1;
      },
      state,
    )

unfoldable pub get_or_connect : Text → Store → Store × ConnectionState
unfolding connect_with
get_or_connect socket_id s = connect_with socket_id s (get socket_id s.connections)

unfoldable pub connect : Text → Store → Store × ℕ
unfolding get_or_connect
connect socket_id s = let (t, state) = get_or_connect socket_id s in (t, state.generation)

unfoldable pub remove_all : List Text → Text → List (Text × List Text) → List (Text × List Text)
unfolding remove_from_index
remove_all [] socket_id index = index
remove_all (key ∷ rest) socket_id index =
    remove_all rest socket_id (remove_from_index key socket_id index)

unfoldable pub disconnect_with : Text → Store → Option ConnectionState → Store
unfolding remove_all
disconnect_with socket_id s none = s
disconnect_with socket_id s (some state) = record s {
  connections = delete socket_id s.connections;
  application_sockets = remove_all (keys state.applications) socket_id s.application_sockets;
  user_id_sockets = remove_all state.user_ids socket_id s.user_id_sockets;
}

unfoldable pub disconnect : Text → Store → Store
unfolding disconnect_with
disconnect socket_id s = disconnect_with socket_id s (get socket_id s.connections)

unfoldable pub to_subscriber : ConnectionState → ApplicationSubscription → ApplicationSubscriber
to_subscriber state application = record {
  socket_id = state.socket_id;
  generation = state.generation;
  application = application;
  user_ids =
      filter
        (λ user_id.
          user_id_matches_context user_id application.input.app_name application.input.platform)
        state.user_ids;
}

-- a socket's state, changed in place
abbrev pub put : ConnectionState → Text → Store → Store
put state socket_id s = record s { connections = set socket_id state s.connections }

-- The changes to one connection's state.
abbrev pub with_application : Application → ConnectionState → ConnectionState
with_application input state = record state {
  next_subscription_revision = state.next_subscription_revision + 1;
  applications =
      set input.app_name (record { input = input; revision = state.next_subscription_revision })
        state.applications;
}

unfoldable pub subscribe_application : Text → Application → Store → Store × ApplicationSubscriber
unfolding get_or_connect to_subscriber add_to_index
subscribe_application socket_id input s =
    let (t, state) = get_or_connect socket_id s in
    let subscription : ApplicationSubscription = record {
      input = input;
      revision = state.next_subscription_revision;
    } in
    let changed = with_application input state in
    (
      record (put changed socket_id t) {
        application_sockets = add_to_index input.app_name socket_id t.application_sockets;
      },
      to_subscriber changed subscription,
    )

unfoldable pub unsubscribe_application_with :
    Text → Text → Store → Option ConnectionState → Store × Bool
unfolding remove_from_index
unsubscribe_application_with socket_id app_name s none = (s, false)
unsubscribe_application_with socket_id app_name s (some state) =
    if is_some (get app_name state.applications)
    then (
      record (put (record state { applications = delete app_name state.applications }) socket_id
          s) { application_sockets = remove_from_index app_name socket_id s.application_sockets },
      true,
    )
    else (s, false)

unfoldable pub unsubscribe_application : Text → Text → Store → Store × Bool
unfolding unsubscribe_application_with
unsubscribe_application socket_id app_name s =
    unsubscribe_application_with socket_id app_name s (get socket_id s.connections)

-- `incrementApplicationRevisions`: each subscription takes the next revision, in the map's order
unfoldable pub renumber :
    ℕ → List (Text × ApplicationSubscription) → List (Text × ApplicationSubscription)
renumber n [] = []
renumber n ((app_name, application) ∷ rest) =
    (app_name, record application { revision = n }) ∷ renumber (n + 1) rest

unfoldable pub increment_application_revisions : ConnectionState → ConnectionState
unfolding renumber
increment_application_revisions state = record state {
  next_subscription_revision = state.next_subscription_revision + length state.applications;
  applications = renumber state.next_subscription_revision state.applications;
}

unfoldable pub subscribe_user_id : Text → Text → Store → Store
unfolding get_or_connect add_to_index increment_application_revisions
subscribe_user_id socket_id user_id s =
    let (t, state) = get_or_connect socket_id s in
    record (put
      (increment_application_revisions (record state { user_ids = add user_id state.user_ids }))
      socket_id t) { user_id_sockets = add_to_index user_id socket_id t.user_id_sockets }

unfoldable pub unsubscribe_user_id_with : Text → Text → Store → Option ConnectionState → Store
unfolding remove_from_index increment_application_revisions
unsubscribe_user_id_with socket_id user_id s none = s
unsubscribe_user_id_with socket_id user_id s (some state) =
    if includes state.user_ids user_id
    then record (put
        (increment_application_revisions
          (record state { user_ids = remove user_id state.user_ids }))
        socket_id s) { user_id_sockets = remove_from_index user_id socket_id s.user_id_sockets }
    else s

unfoldable pub unsubscribe_user_id : Text → Text → Store → Store
unfolding unsubscribe_user_id_with
unsubscribe_user_id socket_id user_id s =
    unsubscribe_user_id_with socket_id user_id s (get socket_id s.connections)
