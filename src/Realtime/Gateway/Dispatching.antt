-- ===== src/Realtime/Gateway/Dispatching.antt =====
-- src/realtime/gateway/realtime.gateway.ts: dispatchApplicationUpdate, the loop over the subscribers of an
-- application. At each `await` other events may change the gateway; how they do is an argument, and so
-- are the sockets and the answers of the lease callback.
use ota_api.Contracts.Version.{VersionError}
use ota_api.Realtime.Dispatch.{DispatchMetrics, Kind, new_metrics}
use ota_api.Realtime.Gateway.{Emission, Gateway, ReleaseCatalog, emit_current_decision}
use ota_api.Realtime.Subscriptions.{ApplicationSubscriber}
use ota_api.Realtime.Subscriptions.Queries.{get_application_subscribers}
use ota_api.Prelude.{
  Bool, List, Option, Result, Text, [], err, if◌then◌else◌, ltb, nat_eq, none, ok, option_text_eq,
  require, some, text_eq, true, ℕ, ◌%◌, ◌&&◌, ◌++◌, ◌+◌, ◌==◌, ◌>>=◌, ◌>>◌, ◌∷◌,
}

pub data DispatchError : Type 0 where
  revision_changed lease_lost callback_failed : DispatchError
  version_error : VersionError → DispatchError

-- The places where the lease is checked: at the start, before the subscriber of an index, at the end.
pub data LeaseCheck : Type 0 where
  at_start at_end : LeaseCheck
  before_subscriber : ℕ → LeaseCheck

-- What is outside: for each subscriber by its index, whether its socket is there and which sends
-- succeed; what `isLeaseValid` answers at each place, if it is given, where `none` is an error that it
-- throws; and what happens to the gateway during an `await` on either.
pub record Surroundings : Type 0 where
  pub present : ℕ → Bool
  pub sends : ℕ → Kind → Bool
  pub is_lease_valid : Option (LeaseCheck → DispatchMetrics → Option Bool)
  pub during_check : LeaseCheck → Gateway → Gateway
  pub during_yield : ℕ → Gateway → Gateway

abbrev pub lease_answer : Option Bool → Result DispatchError (Unit {0})
lease_answer none = err callback_failed
lease_answer (some valid) = require valid lease_lost

-- `isLeaseValid && !(await isLeaseValid(…))`, and the gateway behind it
unfoldable pub check_with :
    Option (LeaseCheck → DispatchMetrics → Option Bool)
    → (LeaseCheck → Gateway → Gateway)
    → LeaseCheck
    → DispatchMetrics
    → Gateway
    → Result DispatchError Gateway
check_with none during place m g = ok g
check_with (some valid) during place m g = lease_answer (valid place m) >> ok (during place g)

unfoldable pub check_lease :
    Surroundings → LeaseCheck → DispatchMetrics → Gateway → Result DispatchError Gateway
unfolding check_with
check_lease around place m g = check_with around.is_lease_valid around.during_check place m g

-- the check before every hundredth subscriber but the first
abbrev pub check_at : Surroundings → ℕ → DispatchMetrics → Gateway → Result DispatchError Gateway
check_at around index m g =
    if ltb 0 index && index % 100 == 0
    then check_lease around (before_subscriber index) m g
    else ok g

unfoldable pub thrown_version : {A : Type 0} → Result VersionError A → Result DispatchError A
thrown_version (ok a) = ok a
thrown_version (err e) = err (version_error e)

-- `setImmediate` behind every hundredth subscriber
abbrev pub yield_at : Surroundings → ℕ → Gateway → Gateway
yield_at around index g = if (index + 1) % 100 == 0 then around.during_yield index g else g

unfoldable pub dispatch_loop :
    Surroundings
    → ReleaseCatalog
    → List ApplicationSubscriber
    → ℕ
    → Emission
    → Result DispatchError Emission
unfolding check_lease thrown_version emit_current_decision
dispatch_loop around catalog [] index before = ok before
dispatch_loop around catalog (subscriber ∷ rest) index before = do
  g ← check_at around index before.metrics before.gateway
  e ← thrown_version (
      emit_current_decision (around.present index) (around.sends index) subscriber catalog true g
        before.metrics)
  dispatch_loop around catalog rest (index + 1) (record {
    gateway = yield_at around index e.gateway;
    metrics = e.metrics;
    sent = before.sent ++ e.sent;
  })

abbrev pub is_expected : Option ℕ → ReleaseCatalog → Bool
is_expected none catalog = true
is_expected (some revision) catalog =
    catalog.available.revision == revision && catalog.audience.revision == revision

-- `dispatchApplicationUpdate`, behind the forced load of the catalog
unfoldable pub dispatch_application_update :
    Surroundings → Text → Option ℕ → ReleaseCatalog → Gateway → Result DispatchError Emission
unfolding check_lease dispatch_loop new_metrics get_application_subscribers
dispatch_application_update around app_name expected catalog g = do
  require (is_expected expected catalog) revision_changed
  started ← check_lease around at_start new_metrics g
  let subscribers = get_application_subscribers app_name started.subscriptions in
      do
        e ←
            dispatch_loop around catalog subscribers 0
              (record { gateway = started; metrics = new_metrics; sent = [] })
        ended ← check_lease around at_end e.metrics e.gateway
        ok (record e { gateway = ended })
