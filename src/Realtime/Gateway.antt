-- ===== src/Realtime/Gateway.antt =====
-- src/realtime/gateway/realtime.gateway.ts and src/updates/update-query.service.ts: the decision for one
-- subscriber, and its delivery. The socket library is not part of the repository: whether a socket is
-- there, and whether a send succeeds, are arguments.
pub mod Views
pub mod Dispatching
pub mod Coverage
pub mod Leasing
mod Tests
use ota_api.Contracts.Releases.{
  AudienceSnapshot, AvailableReleaseSnapshot, Release, UpdateDecision, UpdateSkipReason,
  default_application_update_policy,
}
use ota_api.Contracts.Version.{VersionError}
use ota_api.Updates.Decision.{resolve_update}
use ota_api.Realtime.Dispatch.{
  DispatchMetrics, DispatchRelease, DispatchSkipReason, Kind, count, disconnected,
  revoke_emit_failed, scan, skip, subscription_changed, unchanged, update,
}
use ota_api.Realtime.Subscriptions.{ApplicationSubscriber, Store, is_some, or_empty}
use ota_api.Realtime.Subscriptions.Queries.{is_current}
use ota_api.Prelude.{
  Bool, List, Option, Result, Text, [], delete, false, get, if◌then◌else◌, nat_eq, none, not, ok,
  option_text_eq, set, some, text_eq, to_set, true, ℕ, ◌&&◌, ◌++◌, ◌==◌, ◌>>=◌, ◌>>◌, ◌||◌, ◌∷◌,
}

pub record ReleaseCatalog : Type 0 where
  pub available : AvailableReleaseSnapshot
  pub audience : AudienceSnapshot

pub record UpdateQuery : Type 0 where
  pub app_name : Text
  pub platform : Text
  pub architecture : Option Text
  pub distribution_channel : Option Text
  pub current_version : Text
  pub installed_release_sequence : Option ℕ
  pub user_ids : Option (List Text)

-- `serializeRelease`: the release's fields, whose scope is named `releaseScope`, with both flags
unfoldable pub serialize_release : Release → Bool → Bool → Release
serialize_release release mandatory show_update_dialog = record release {
  mandatory = mandatory;
  show_update_dialog = show_update_dialog;
}

-- `?? 0` and `?? []`
abbrev pub or_zero : Option ℕ → ℕ
or_zero none = 0
or_zero (some n) = n

unfoldable pub payload_of : UpdateDecision → Option Release → Option Release
unfolding serialize_release
payload_of decision none = none
payload_of decision (some release) =
    some (serialize_release release decision.mandatory decision.show_update_dialog)

unfoldable pub resolve_available_decision :
    UpdateQuery → ReleaseCatalog → Result VersionError (Option Release × UpdateDecision)
unfolding payload_of resolve_update to_set
resolve_available_decision query catalog = do
  decision ←
      resolve_update
        (record {
          app_name = query.app_name;
          platform = query.platform;
          architecture = query.architecture;
          distribution_channel = query.distribution_channel;
          current_version = query.current_version;
          installed_release_sequence = or_zero query.installed_release_sequence;
          user_ids = to_set [] (or_empty query.user_ids);
        })
        catalog.available catalog.audience default_application_update_policy
  ok (payload_of decision decision.release, decision)

pub record DeliveredRelease : Type 0 where
  pub release : DispatchRelease
  pub payload : Release

pub record Gateway : Type 0 where
  pub subscriptions : Store
  pub delivered : List (Text × List (Text × DeliveredRelease))

-- A message on the application's update event that the socket library took.
pub record Message : Type 0 where
  pub socket_id : Text
  pub app_name : Text
  pub kind : Kind
  pub payload : Release

-- The deliveries of the socket, the counters and the messages, during and after a decision's delivery.
pub record Delivery : Type 0 where
  pub deliveries : List (Text × DeliveredRelease)
  pub metrics : DispatchMetrics
  pub sent : List Message

abbrev pub dispatch_release : Release → DispatchRelease
dispatch_release r = record { release_id = r.release_id; release_sequence = r.release_sequence }

-- `emit`: an attempt is counted, and a failure too
unfoldable pub attempt : Bool → Kind → DispatchRelease → DispatchMetrics → DispatchMetrics
unfolding count
attempt sends kind release m =
    let n = count kind release m in if sends then n else count Kind.emit_errors release n

-- `previousId === nextId`
abbrev pub same_sequence : Option DeliveredRelease → Option Release → Bool
same_sequence none none = true
same_sequence (some p) (some r) = p.release.release_sequence == r.release_sequence
same_sequence _ _ = false

module _ (sends : Kind → Bool) (socket_id app_name : Text) where
  -- the revocation of the release that was delivered before, and whether the delivery goes on
  unfoldable pub revoke :
      Option DeliveredRelease → (payload decided : Option Release) → Delivery → Delivery × Bool
  unfolding attempt skip
  revoke none payload decided d = (d, true)
  revoke (some previous) payload decided d =
      if is_some payload && same_sequence (some previous) decided
      then (d, true)
      else let m = attempt (sends Kind.revoked) Kind.revoked previous.release d.metrics in
        if sends Kind.revoked
        then (
          record {
            deliveries = delete app_name d.deliveries;
            metrics = m;
            sent =
                d.sent
                ++ record {
                  socket_id = socket_id;
                  app_name = app_name;
                  kind = Kind.revoked;
                  payload = record (previous.payload) { enabled = false };
                }
                  ∷ [];
          },
          true,
        )
        else (
          record d { metrics = if is_some payload then skip revoke_emit_failed m else m },
          false,
        )

  -- the update itself, unless it is not forced and repeats the release delivered before
  unfoldable pub update_to :
      Bool → Option DeliveredRelease → (payload decided : Option Release) → Delivery → Delivery
  unfolding attempt skip
  update_to force previous (some payload) (some release) d =
      if force || not (same_sequence previous (some release))
      then (let m =
            attempt (sends Kind.updated) Kind.updated (dispatch_release release) d.metrics in
          if sends Kind.updated
          then record {
            deliveries =
                set app_name (record { release = dispatch_release release; payload = payload })
                  d.deliveries;
            metrics = m;
            sent =
                d.sent
                ++ record {
                  socket_id = socket_id;
                  app_name = app_name;
                  kind = Kind.updated;
                  payload = payload;
                }
                  ∷ [];
          }
          else record d { metrics = m })
      else record d { metrics = skip unchanged d.metrics }
  update_to force previous payload decided d = d

-- `?? new Map()`
abbrev pub deliveries_or_none :
    Option (List (Text × DeliveredRelease)) → List (Text × DeliveredRelease)
deliveries_or_none none = []
deliveries_or_none (some m) = m

abbrev pub deliveries_of : Text → Gateway → List (Text × DeliveredRelease)
deliveries_of socket_id g = deliveries_or_none (get socket_id g.delivered)

abbrev pub is_empty_map : List (Text × DeliveredRelease) → Bool
is_empty_map [] = true
is_empty_map (e ∷ m) = false

unfoldable pub put_deliveries : Text → List (Text × DeliveredRelease) → Gateway → Gateway
put_deliveries socket_id deliveries g = record g {
  delivered =
      if is_empty_map deliveries
      then delete socket_id g.delivered
      else set socket_id deliveries g.delivered;
}

-- What one decision changes and sends.
pub record Emission : Type 0 where
  pub gateway : Gateway
  pub metrics : DispatchMetrics
  pub sent : List Message

abbrev pub skipped : DispatchSkipReason → Gateway → DispatchMetrics → Emission
skipped reason g m = record { gateway = g; metrics = skip reason m; sent = [] }

abbrev pub skip_or_current : Option UpdateSkipReason → DispatchSkipReason
skip_or_current none = update UpdateSkipReason.already_current
skip_or_current (some r) = update r

abbrev pub count_eligible : Option Release → DispatchMetrics → DispatchMetrics
count_eligible none m = m
count_eligible (some r) m = count Kind.eligible (dispatch_release r) m

abbrev pub skip_without :
    Option Release → Option UpdateSkipReason → DispatchMetrics → DispatchMetrics
skip_without none reason m = skip (skip_or_current reason) m
skip_without (some payload) reason m = m

-- the deliveries of the socket put back, unless the revocation was the end
unfoldable pub complete :
    (Kind → Bool)
    → Text
    → Text
    → Bool
    → Gateway
    → Option DeliveredRelease
    → (payload decided : Option Release) → Delivery × Bool
    → Emission
unfolding update_to put_deliveries
complete sends socket_id app_name force g previous payload decided (d, true) =
    let e = update_to sends socket_id app_name force previous payload decided d in
    record { gateway = put_deliveries socket_id e.deliveries g; metrics = e.metrics; sent = e.sent }
complete sends socket_id app_name force g previous payload decided (d, false) = record {
  gateway = g;
  metrics = d.metrics;
  sent = d.sent;
}

-- behind the decision: the delivery
unfoldable pub deliver :
    (Kind → Bool)
    → Text
    → Text
    → Bool
    → Gateway
    → (payload decided : Option Release) → DispatchMetrics
    → Emission
unfolding revoke complete
deliver sends socket_id app_name force g payload decided m =
    let deliveries = deliveries_of socket_id g in
    let previous = get app_name deliveries in
    complete sends socket_id app_name force g previous payload decided (
      revoke sends socket_id app_name previous payload decided
        (record { deliveries = deliveries; metrics = m; sent = [] }))

abbrev pub query_of : ApplicationSubscriber → UpdateQuery
query_of subscriber =
    let application = subscriber.application.input in
    record {
      app_name = application.app_name;
      platform = application.platform;
      architecture = application.architecture;
      distribution_channel = application.distribution_channel;
      current_version = application.current_version;
      installed_release_sequence = some application.installed_release_sequence;
      user_ids = some subscriber.user_ids;
    }

-- behind the first two tests, with the decision that was made
unfoldable pub emit_decision :
    (Kind → Bool)
    → ApplicationSubscriber
    → Bool
    → Gateway
    → DispatchMetrics
    → Option Release × UpdateDecision
    → Emission
unfolding deliver is_current skip count
emit_decision sends subscriber force g m (payload, decision) =
    let n = count_eligible decision.release m in
    if not (is_current subscriber g.subscriptions)
    then skipped subscription_changed g n
    else deliver sends subscriber.socket_id subscriber.application.input.app_name force g payload
        decision.release (skip_without payload decision.skip_reason n)

-- `emitCurrentDecision`; `present`: the client is given, or its socket is connected
unfoldable pub emit_current_decision :
    (present : Bool)
    → (Kind → Bool)
    → ApplicationSubscriber
    → ReleaseCatalog
    → Bool
    → Gateway
    → DispatchMetrics
    → Result VersionError Emission
unfolding emit_decision resolve_available_decision is_current scan skip
emit_current_decision present sends subscriber catalog force g m =
    let n = scan m in
    if not (is_current subscriber g.subscriptions)
    then ok (skipped subscription_changed g n)
    else if not present
    then ok (skipped disconnected g n)
    else do
      decided ← resolve_available_decision (query_of subscriber) catalog
      ok (emit_decision sends subscriber force g n decided)
