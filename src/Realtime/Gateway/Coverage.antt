-- ===== src/Realtime/Gateway/Coverage.antt =====
-- A dispatch that ends well has come to every subscriber.
use ota_api.Contracts.Releases.{Release, UpdateDecision, UpdateSkipReason}
use ota_api.Contracts.Version.{VersionError}
use ota_api.Realtime.Dispatch.{
  DispatchMetrics, DispatchRelease, Kind, count, disconnected, new_metrics, revoke_emit_failed,
  scan, subscription_changed, unchanged,
}
use ota_api.Realtime.Dispatch.Scanning.{scanned-count, scanned-skip}
use ota_api.Realtime.Gateway.{
  DeliveredRelease, Delivery, Emission, Gateway, ReleaseCatalog, attempt, complete, count_eligible,
  deliver, deliveries_of, dispatch_release, emit_current_decision, emit_decision, query_of,
  resolve_available_decision, revoke, skip_or_current, skip_without, skipped, update_to,
}
use ota_api.Realtime.Gateway.Dispatching.{
  DispatchError, Surroundings, check_at, check_lease, dispatch_application_update, dispatch_loop,
  is_expected, revision_changed, thrown_version, yield_at, at_end, at_start,
}
use ota_api.Realtime.Subscriptions.{ApplicationSubscriber}
use ota_api.Realtime.Subscriptions.Queries.{get_application_subscribers, is_current}
use ota_api.Prelude.{
  >>=-eq-ok, Bool, Bool-cases, List, Option, Result, Text, [], ap, arith, err, false, get, inl, inr,
  length, nat_eq, none, ok, ok_value, option_text_eq, refl, require, require-eq-ok, some, sym,
  text_eq, true, ℕ, ◌++◌, ◌+◌, ◌∙◌, ◌∷◌, ◌≡◌,
}

scanned-attempt :
    (sends : Bool) (kind : Kind) (r : DispatchRelease) (m : DispatchMetrics)
    → (attempt sends kind r m).scanned ≡ m.scanned
unfolding attempt
scanned-attempt true kind r m = scanned-count kind r m
scanned-attempt false kind r m =
    scanned-count Kind.emit_errors r (count kind r m) ∙ scanned-count kind r m

module _ (sends : Kind → Bool) (socket_id app_name : Text) where
  scanned-revoke :
      (previous : Option DeliveredRelease) (payload decided : Option Release) (d : Delivery)
      → (revoke sends socket_id app_name previous payload decided d).0.metrics.scanned
        ≡ d.metrics.scanned
  unfolding revoke
  scanned-revoke none payload decided d = refl
  scanned-revoke (some previous) payload decided d = ground (
    arith,
    scanned-attempt (sends Kind.revoked) Kind.revoked previous.release d.metrics,
    scanned-skip revoke_emit_failed
        (attempt (sends Kind.revoked) Kind.revoked previous.release d.metrics),
  )

  scanned-update_to :
      (force : Bool) (previous : Option DeliveredRelease) (payload decided : Option Release)
      (d : Delivery)
      → (update_to sends socket_id app_name force previous payload decided d).metrics.scanned
        ≡ d.metrics.scanned
  unfolding update_to
  scanned-update_to force previous (some payload) (some r) d = ground (
    arith,
    scanned-attempt (sends Kind.updated) Kind.updated (dispatch_release r) d.metrics,
    scanned-skip unchanged d.metrics,
  )
  scanned-update_to force previous none decided d = refl
  scanned-update_to force previous (some payload) none d = refl

  scanned-complete :
      (force : Bool) (g : Gateway) (previous : Option DeliveredRelease)
      (payload decided : Option Release) (r : Delivery × Bool)
      → (complete sends socket_id app_name force g previous payload decided r).metrics.scanned
        ≡ r.0.metrics.scanned
  unfolding complete
  scanned-complete force g previous payload decided (d, true) =
      scanned-update_to force previous payload decided d
  scanned-complete force g previous payload decided (d, false) = refl

  scanned-deliver :
      (force : Bool) (g : Gateway) (payload decided : Option Release) (m : DispatchMetrics)
      → (deliver sends socket_id app_name force g payload decided m).metrics.scanned ≡ m.scanned
  unfolding deliver
  scanned-deliver force g payload decided m =
      scanned-complete force g _ payload decided _
      ∙ scanned-revoke (get app_name (deliveries_of socket_id g)) payload decided
          (record { deliveries = deliveries_of socket_id g; metrics = m; sent = [] })

scanned-skip_without :
    (payload : Option Release) (reason : Option UpdateSkipReason) (m : DispatchMetrics)
    → (skip_without payload reason m).scanned ≡ m.scanned
scanned-skip_without none reason m = scanned-skip (skip_or_current reason) m
scanned-skip_without (some payload) reason m = refl

scanned-count_eligible :
    (r : Option Release) (m : DispatchMetrics) → (count_eligible r m).scanned ≡ m.scanned
scanned-count_eligible none m = refl
scanned-count_eligible (some r) m = scanned-count Kind.eligible (dispatch_release r) m

scanned-emit_decision :
    (sends : Kind → Bool) (subscriber : ApplicationSubscriber) (force : Bool) (g : Gateway)
    (m : DispatchMetrics) (p : Option Release × UpdateDecision)
    → (emit_decision sends subscriber force g m p).metrics.scanned ≡ m.scanned
unfolding emit_decision
scanned-emit_decision sends subscriber force g m (payload, decision) =
    let n = count_eligible decision.release m in
    elim (Bool-cases (is_current subscriber g.subscriptions)) [
      | inr stale ↦
          rw stale (scanned-skip subscription_changed n ∙ scanned-count_eligible decision.release m)
      | inl current ↦ rw current (
          scanned-deliver sends subscriber.socket_id subscriber.application.input.app_name force g
            payload decision.release (skip_without payload decision.skip_reason n)
          ∙ scanned-skip_without payload decision.skip_reason n
          ∙ scanned-count_eligible decision.release m)
    ]

pub scanned-emit :
    (present : Bool) (sends : Kind → Bool) (subscriber : ApplicationSubscriber)
    (catalog : ReleaseCatalog) (force : Bool) (g : Gateway) (m : DispatchMetrics) (e : Emission)
    → emit_current_decision present sends subscriber catalog force g m ≡ ok e
    → e.metrics.scanned ≡ m.scanned + 1
unfolding emit_current_decision scan
scanned-emit present sends subscriber catalog force g m e h =
    elim (Bool-cases (is_current subscriber g.subscriptions)) [
      | inr stale ↦
          let r : skipped subscription_changed g (scan m) ≡ e = ground (arith, stale, h) in
          ap (λ (x : Emission). x.metrics.scanned) (sym r)
          ∙ scanned-skip subscription_changed (scan m)
      | inl current ↦ elim (Bool-cases present) [
        | inr gone ↦
            let r : skipped disconnected g (scan m) ≡ e = ground (arith, current, gone, h) in
            ap (λ (x : Emission). x.metrics.scanned) (sym r) ∙ scanned-skip disconnected (scan m)
        | inl there ↦
            let (p, _, q) =
              >>=-eq-ok (resolve_available_decision (query_of subscriber) catalog)
                (λ decided. ok (emit_decision sends subscriber force g (scan m) decided)) {end = e}
                (ground (arith, current, there, h)) in
            let r : emit_decision sends subscriber force g (scan m) p ≡ e =
              ok_value {E = VersionError} _ _ refl e q in
            ap (λ (x : Emission). x.metrics.scanned) (sym r)
            ∙ scanned-emit_decision sends subscriber force g (scan m) p
      ]
    ]

pub thrown_version-eq-ok :
    {A : Type 0} (r : Result VersionError A) (a : A) → thrown_version r ≡ ok a → r ≡ ok a
unfolding thrown_version
thrown_version-eq-ok (ok b) a h = cc h
thrown_version-eq-ok (err e) a h = absurd (cc h)

pub scanned-loop :
    (around : Surroundings) (catalog : ReleaseCatalog) (subscribers : List ApplicationSubscriber)
    (index : ℕ) (before e : Emission)
    → dispatch_loop around catalog subscribers index before ≡ ok e
    → e.metrics.scanned ≡ before.metrics.scanned + length subscribers
unfolding dispatch_loop
scanned-loop around catalog [] index before e h =
    let r : before ≡ e = ok_value {E = DispatchError} _ _ refl e h in
    ap (λ (x : Emission). x.metrics.scanned) (sym r) ∙ omega arith
scanned-loop around catalog (s ∷ rest) index before e h =
    let (g, _, h1) =
      >>=-eq-ok (check_at around index before.metrics before.gateway) _ {end = e} h in
    let (x, p, h2) =
      >>=-eq-ok
        (thrown_version (
          emit_current_decision (around.present index) (around.sends index) s catalog true g
            before.metrics))
        _ {end = e} h1 in
    let one =
      scanned-emit (around.present index) (around.sends index) s catalog true g before.metrics x
        (thrown_version-eq-ok _ x p) in
    omega (
      arith,
      one,
      scanned-loop around catalog rest (index + 1)
          (record {
            gateway = yield_at around index x.gateway;
            metrics = x.metrics;
            sent = before.sent ++ x.sent;
          })
          e h2,
    )

zero_add : (n : ℕ) → 0 + n ≡ n
zero_add n = omega arith

-- However the sockets, the lease and the other events behave, a dispatch that returns has the revision
-- that was asked for, if one was, and has scanned as many subscribers as the application had once the
-- lease was first confirmed.
pub dispatch_application_update-Covers :
    (around : Surroundings) (app_name : Text) (expected : Option ℕ) (catalog : ReleaseCatalog)
    (g : Gateway) (e : Emission)
    → dispatch_application_update around app_name expected catalog g ≡ ok e
    → (is_expected expected catalog ≡ true)
      × ((started : Gateway) × (check_lease around at_start new_metrics g ≡ ok started)
          × (e.metrics.scanned
              ≡ length (get_application_subscribers app_name started.subscriptions)))
unfolding dispatch_application_update new_metrics
dispatch_application_update-Covers around app_name expected catalog g e h =
    let (u, fits, h1) =
      >>=-eq-ok (require (is_expected expected catalog) revision_changed) _ {end = e} h in
    let (started, checked, h2) =
      >>=-eq-ok (check_lease around at_start new_metrics g) _ {end = e} h1 in
    let (x, looped, h3) =
      >>=-eq-ok
        (dispatch_loop around catalog (get_application_subscribers app_name started.subscriptions) 0
          (record { gateway = started; metrics = new_metrics; sent = [] }))
        _ {end = e} h2 in
    let (ended, _, h4) = >>=-eq-ok (check_lease around at_end x.metrics x.gateway) _ {end = e} h3 in
    let r : record x { gateway = ended } ≡ e = ok_value {E = DispatchError} _ _ refl e h4 in
    (
      require-eq-ok _ revision_changed u fits,
      (
        started,
        checked,
        ap (λ (y : Emission). y.metrics.scanned) (sym r)
            ∙ scanned-loop around catalog
                (get_application_subscribers app_name started.subscriptions) 0
                (record { gateway = started; metrics = new_metrics; sent = [] }) x looped
            ∙ zero_add _,
      ),
    )
