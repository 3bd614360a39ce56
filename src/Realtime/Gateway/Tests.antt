-- ===== src/Realtime/Gateway/Tests.antt =====
-- The theorems on the gateway at a concrete subscription.
use ota_api.Realtime.Subscriptions.Queries.{get_application_subscribers}
use ota_api.Realtime.Gateway.Coverage.{dispatch_application_update-Covers}
use ota_api.Realtime.Gateway.Dispatching.{
  DispatchError, Surroundings, check_lease, dispatch_application_update, is_expected, at_start,
}
use ota_api.Contracts.Releases.{Release, full, public}
use ota_api.Contracts.Version.{VersionError, compare_versions, is_app_version, is_numeral, text_gt}
use ota_api.Updates.Decision.Sorting.{filter_throwing, sort_by}
use ota_api.Realtime.Dispatch.{DispatchMetrics, disconnected, new_metrics}
use ota_api.Realtime.Subscriptions.{
  Application, ApplicationSubscriber, Store, no_connections, subscribe_application,
}
use ota_api.Realtime.Gateway.{Emission, Gateway, ReleaseCatalog, emit_current_decision, skipped}
use ota_api.Realtime.Gateway.Views.{Tells, emit_current_decision-Tells}
use ota_api.Prelude.{
  Result, [], add, all, err, filter, get, length, list_beq, nat_eq, none, ok, option_text_eq, refl,
  set, some, split, text, text_eq, true, ◌∷◌, ◌≡◌,
}

abbrev an_application : Application
an_application = record {
  app_name = text "shop";
  platform = text "ios";
  architecture = none;
  distribution_channel = none;
  current_version = text "1.0.0";
  installed_release_sequence = 0;
}

abbrev a_subscription : Store × ApplicationSubscriber
a_subscription = subscribe_application (text "s") an_application no_connections

abbrev a_gateway : Gateway
a_gateway = record { subscriptions = a_subscription.0; delivered = [] }

abbrev a_release : Release
a_release = record {
  release_id = text "r1";
  release_sequence = 3;
  app_name = text "shop";
  target_version = text "1.1.0";
  platforms = text "ios" ∷ [];
  architectures = [];
  distribution_channel = none;
  update_type = full;
  scope = public;
  enabled = true;
  mandatory = true;
  show_update_dialog = true;
  policy_revision = some 1;
  release_notes = none;
  artifact_size_bytes = none;
  installer_source_url = some (text "u");
  bundle_url = none;
  created_at = none;
  updated_at = none;
}

abbrev a_catalog : ReleaseCatalog
a_catalog = record {
  available = record { revision = 7; releases = a_release ∷ [] };
  audience = record { revision = 7; user_ids_by_release_id = [] };
}

abbrev no_metrics : DispatchMetrics
no_metrics = new_metrics

abbrev an_emission : Result VersionError Emission
an_emission =
    emit_current_decision true (λ kind. true) a_subscription.1 a_catalog true a_gateway no_metrics

abbrev emitted : Result VersionError Emission → Emission
emitted (ok e) = e
emitted (err v) = skipped disconnected a_gateway no_metrics

an_emission_ends : an_emission ≡ ok (emitted an_emission)
unfolding emit_current_decision subscribe_application list_beq get set filter_throwing filter
    compare_versions is_app_version split is_numeral all text_gt sort_by
an_emission_ends = refl

emit_current_decision-Tells_example : Tells a_gateway (emitted an_emission)
emit_current_decision-Tells_example =
    emit_current_decision-Tells true (λ kind. true) a_subscription.1 a_catalog true a_gateway
      no_metrics (emitted an_emission) an_emission_ends

abbrev quiet : Surroundings
quiet = record {
  present = λ index. true;
  sends = λ index kind. true;
  is_lease_valid = some (λ place m. some true);
  during_check = λ place g. g;
  during_yield = λ index g. g;
}

abbrev a_dispatch : Result DispatchError Emission
a_dispatch = dispatch_application_update quiet (text "shop") (some 7) a_catalog a_gateway

abbrev dispatched : Result DispatchError Emission → Emission
dispatched (ok e) = e
dispatched (err v) = skipped disconnected a_gateway no_metrics

a_dispatch_ends : a_dispatch ≡ ok (dispatched a_dispatch)
unfolding dispatch_application_update subscribe_application list_beq get set add filter_throwing
    filter compare_versions is_app_version split is_numeral all text_gt sort_by
a_dispatch_ends = refl

dispatch_application_update-Covers_example :
    (is_expected (some 7) a_catalog ≡ true)
    × ((started : Gateway) × (check_lease quiet at_start new_metrics a_gateway ≡ ok started)
        × ((dispatched a_dispatch).metrics.scanned
            ≡ length (get_application_subscribers (text "shop") started.subscriptions)))
dispatch_application_update-Covers_example =
    dispatch_application_update-Covers quiet (text "shop") (some 7) a_catalog a_gateway
      (dispatched a_dispatch) a_dispatch_ends
