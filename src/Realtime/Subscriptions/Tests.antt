-- ===== src/Realtime/Subscriptions/Tests.antt =====
-- Two sockets that subscribe to one application, and the theorems at them.
use ota_api.Realtime.Subscriptions.Indexes.{leads}
use ota_api.Realtime.Subscriptions.{
  Application, ApplicationSubscriber, connect_with, get_or_connect, increment_application_revisions,
  new_connection, no_connections, renumber, subscribe_application, subscribe_user_id, to_subscriber,
  is_some,
}
use ota_api.Realtime.Subscriptions.Queries.{
  get_application_subscriber, get_application_subscribers, is_current,
}
use ota_api.Realtime.Subscriptions.Operations.{
  Operation, apply, disconnects, run, subscribes_application, subscribes_unique_id,
  subscribes_user_id,
}
use ota_api.Realtime.Subscriptions.Snapshots.{is_current_iff}
use ota_api.Realtime.Subscriptions.Broadcast.{get_application_subscribers_iff}
use ota_api.Contracts.UserId.{parse_user_id, user_id_matches_context}
use ota_api.Prelude.{
  In, List, Text, [], add, filter, find, get, list_beq, nat_eq, none, option_text_eq, refl, set,
  some, text, text_eq, true, ◌↔◌, ◌∷◌, ◌≡◌,
}

abbrev shop : Application
shop = record {
  app_name = text "shop";
  platform = text "ios";
  architecture = none;
  distribution_channel = none;
  current_version = text "1.0";
  installed_release_sequence = 3;
}

abbrev first_calls : List Operation
first_calls =
    subscribes_user_id (text "a") (text "u")
    ∷ subscribes_application (text "a") shop
    ∷ subscribes_application (text "b") shop
    ∷ []

abbrev later_calls : List Operation
later_calls =
    disconnects (text "b") ∷ subscribes_unique_id (text "a") (text "shop") (text "device") ∷ []

abbrev taken : ApplicationSubscriber
taken = record {
  socket_id = text "a";
  generation = 1;
  application = record { input = shop; revision = 1 };
  user_ids = [];
}

taken_there :
    get_application_subscriber (text "a") (text "shop") (run first_calls no_connections)
    ≡ some taken
unfolding get_application_subscriber run apply subscribe_application subscribe_user_id
    get_or_connect connect_with new_connection to_subscriber increment_application_revisions
    renumber get set add filter user_id_matches_context parse_user_id list_beq find
taken_there = refl

is_current_iff_example :
    (is_current taken (run later_calls (run first_calls no_connections)) ≡ true) ↔ (
      get_application_subscriber
        (text "a")
        (text "shop")
        (run later_calls (run first_calls no_connections))
      ≡ some taken)
is_current_iff_example =
    is_current_iff first_calls later_calls (text "a") (text "shop") taken taken_there

get_application_subscribers_iff_example :
    (leads (text "shop") (text "a") (run first_calls no_connections).application_sockets
      ≡ is_some
          (get_application_subscriber (text "a") (text "shop") (run first_calls no_connections)))
    × (In taken (get_application_subscribers (text "shop") (run first_calls no_connections))
        ↔ (id : Text) × (get_application_subscriber id
              (text "shop")
              (run first_calls no_connections)
            ≡ some taken))
get_application_subscribers_iff_example =
    get_application_subscribers_iff first_calls (text "shop") (text "a") taken
