-- ===== src/Realtime/Gateway/Views.antt =====
-- What a client shows, by the messages that were sent to it, against the deliveries that are recorded.
use ota_api.Contracts.Releases.{Release, UpdateDecision}
use ota_api.Realtime.Dispatch.{Kind, DispatchMetrics, scan, disconnected, subscription_changed}
use ota_api.Realtime.Subscriptions.{is_some, ApplicationSubscriber}
use ota_api.Realtime.Subscriptions.Queries.{is_current}
use ota_api.Realtime.Gateway.{
  DeliveredRelease, Delivery, Gateway, Message, deliveries_of, revoke, same_sequence, Emission,
  complete, dispatch_release, put_deliveries, update_to, ReleaseCatalog, count_eligible, deliver,
  emit_current_decision, emit_decision, query_of, resolve_available_decision, skip_without, skipped,
}
use ota_api.Prelude.{
  >>=-eq-ok, Bool, Bool-cases, List, Option, Text, [], ap, arith, false, get, get-delete, get-set,
  if◌then◌else◌, inl, inr, nat_eq, none, not, ok, option_text_eq, refl, some, subst, sym, text_eq,
  true, ◌&&◌, ◌++◌, ◌==◌, ◌||◌, ◌∙◌, ◌∷◌, ◌≡◌,
}

abbrev pub payload_at : Option DeliveredRelease → Option Release
payload_at none = none
payload_at (some p) = some p.payload

-- what the gateway takes the client to show for an application
abbrev pub recorded : Text → Text → Gateway → Option Release
recorded socket_id app_name g = payload_at (get app_name (deliveries_of socket_id g))

-- what one message makes a client show
abbrev pub shown_after : Kind → Release → Option Release → Option Release
shown_after Kind.updated payload v = some payload
shown_after Kind.revoked payload v = none
shown_after _ payload v = v

-- what the client shows for an application after messages, given what it showed before
unfoldable pub view : Text → Text → Option Release → List Message → Option Release
view socket_id app_name v [] = v
view socket_id app_name v (m ∷ ms) =
    view socket_id app_name
      (if m.socket_id == socket_id && m.app_name == app_name
        then shown_after m.kind m.payload v
        else v)
      ms

view-append :
    (s a : Text) (ms ns : List Message) (v : Option Release)
    → view s a v (ms ++ ns) ≡ view s a (view s a v ms) ns
unfolding view
view-append s a [] ns v = refl
view-append s a (m ∷ ms) ns v =
    view-append s a ms ns
      (if m.socket_id == s && m.app_name == a then shown_after m.kind m.payload v else v)

module _ (sends : Kind → Bool) (socket_id app_name : Text) where
  -- The delivery of one decision to the socket, from what its client showed before.
  record IsTrue (before : Text → Option Release) (d : Delivery) : Type 0 where
    told : (a : Text) → view socket_id a (before a) d.sent ≡ payload_at (get a d.deliveries)
    others : (s a : Text) (v : Option Release) → (socket_id == s) ≡ false → view s a v d.sent ≡ v

  told_to_others :
      (s a : Text) (v : Option Release) (ms : List Message) (m : Message)
      → (m.socket_id == s) ≡ false
      → view s a v ms ≡ v
      → view s a v (ms ++ m ∷ []) ≡ v
  unfolding view
  told_to_others s a v ms m n h = view-append s a ms (m ∷ []) v ∙ rw (h, n) refl

  message_of : Kind → Release → Message
  message_of kind payload = record {
    socket_id = socket_id;
    app_name = app_name;
    kind = kind;
    payload = payload;
  }

  told_itself :
      (a : Text) (v w : Option Release) (ms : List Message) (kind : Kind) (payload : Release)
      → view socket_id a v ms ≡ w
      → view socket_id a v (ms ++ message_of kind payload ∷ [])
        ≡ (if app_name == a then shown_after kind payload w else w)
  unfolding view message_of
  told_itself a v w ms kind payload h =
      view-append socket_id a ms (message_of kind payload ∷ []) v
      ∙ rw (h, (text_eq.beq_iff socket_id socket_id).1 refl) refl

  revoke-IsTrue :
      (before : Text → Option Release) (previous : Option DeliveredRelease)
      (payload decided : Option Release) (d : Delivery)
      → IsTrue before d
      → IsTrue before (revoke sends socket_id app_name previous payload decided d).0
  unfolding revoke message_of
  revoke-IsTrue before none payload decided d h = h
  revoke-IsTrue before (some p) payload decided d h =
      elim (Bool-cases (is_some payload && same_sequence (some p) decided)) [
        | inl keep ↦ rw keep h
        | inr change ↦ elim (Bool-cases (sends Kind.revoked)) [
          | inr failed ↦ rw (change, failed) (record { told = h.told; others = h.others })
          | inl taken ↦
              rw (change, taken)
                (record {
                  told = λ a.
                      told_itself a (before a) (payload_at (get a d.deliveries)) d.sent Kind.revoked
                        (record (p.payload) { enabled = false }) (h.told a)
                      ∙ ground (arith, get-delete app_name a d.deliveries);
                  others = λ s a v n. told_to_others s a v d.sent _ n (h.others s a v n);
                })
        ]
      ]

  update_to-IsTrue :
      (before : Text → Option Release) (force : Bool) (previous : Option DeliveredRelease)
      (payload decided : Option Release) (d : Delivery)
      → IsTrue before d
      → IsTrue before (update_to sends socket_id app_name force previous payload decided d)
  unfolding update_to message_of
  update_to-IsTrue before force previous none decided d h = h
  update_to-IsTrue before force previous (some payload) none d h = h
  update_to-IsTrue before force previous (some payload) (some release) d h =
      elim (Bool-cases (force || not (same_sequence previous (some release)))) [
        | inr repeated ↦ rw repeated (record { told = h.told; others = h.others })
        | inl fresh ↦ elim (Bool-cases (sends Kind.updated)) [
          | inr failed ↦ rw (fresh, failed) (record { told = h.told; others = h.others })
          | inl taken ↦
              rw (fresh, taken)
                (record {
                  told = λ a.
                      told_itself a (before a) (payload_at (get a d.deliveries)) d.sent Kind.updated
                        payload (h.told a)
                      ∙ ground (
                        arith,
                        get-set app_name a
                            (record { release = dispatch_release release; payload = payload })
                            d.deliveries,
                      );
                  others = λ s a v n. told_to_others s a v d.sent _ n (h.others s a v n);
                })
        ]
      ]

deliveries-put :
    (k s : Text) (m : List (Text × DeliveredRelease)) (g : Gateway)
    → deliveries_of s (put_deliveries k m g) ≡ (if k == s then m else deliveries_of s g)
unfolding put_deliveries
deliveries-put k s [] g = ground (arith, get-delete k s g.delivered)
deliveries-put k s (e ∷ m) g = ground (arith, get-set k s (e ∷ m) g.delivered)

-- What each client shows, by the messages sent to it, is what the gateway records for it.
abbrev pub Tells : Gateway → Emission → Type 0
Tells g e = (s a : Text) → view s a (recorded s a g) e.sent ≡ recorded s a e.gateway

complete-Tells :
    (sends : Kind → Bool) (socket_id app_name : Text) (force : Bool) (g : Gateway)
    (previous : Option DeliveredRelease) (payload decided : Option Release) (r : Delivery × Bool)
    → IsTrue sends socket_id app_name (λ a. recorded socket_id a g) r.0
    → (r.1 ≡ false → r.0.sent ≡ [])
    → Tells g (complete sends socket_id app_name force g previous payload decided r)
unfolding complete get view
complete-Tells sends socket_id app_name force g previous payload decided (d, true) h q s a =
    let e = update_to sends socket_id app_name force previous payload decided d in
    let v =
      update_to-IsTrue sends socket_id app_name (λ a. recorded socket_id a g) force previous payload
        decided d h in
    elim (Bool-cases (socket_id == s)) [
      | inl same ↦ rw (sym ((text_eq.beq_iff socket_id s).0 same)) (
          v.told a
          ∙ ap (λ m. payload_at (get a m))
              (sym (
                deliveries-put socket_id socket_id e.deliveries g
                ∙ rw ((text_eq.beq_iff socket_id socket_id).1 refl) refl)))
      | inr apart ↦
          v.others s a (recorded s a g) apart
          ∙ ap (λ m. payload_at (get a m))
              (sym (deliveries-put socket_id s e.deliveries g ∙ rw apart refl))
    ]
complete-Tells sends socket_id app_name force g previous payload decided (d, false) h q s a =
    rw (q refl) refl

revoke-stopped :
    (sends : Kind → Bool) (socket_id app_name : Text) (previous : Option DeliveredRelease)
    (payload decided : Option Release) (d : Delivery)
    → (revoke sends socket_id app_name previous payload decided d).1 ≡ false
    → (revoke sends socket_id app_name previous payload decided d).0.sent ≡ d.sent
unfolding revoke
revoke-stopped sends socket_id app_name none payload decided d h = refl
revoke-stopped sends socket_id app_name (some p) payload decided d h = ground (arith, h)

deliver-Tells :
    (sends : Kind → Bool) (socket_id app_name : Text) (force : Bool) (g : Gateway)
    (payload decided : Option Release) (m : DispatchMetrics)
    → Tells g (deliver sends socket_id app_name force g payload decided m)
unfolding deliver view
deliver-Tells sends socket_id app_name force g payload decided m =
    let d : Delivery = record { deliveries = deliveries_of socket_id g; metrics = m; sent = [] } in
    let previous = get app_name (deliveries_of socket_id g) in
    complete-Tells sends socket_id app_name force g previous payload decided _
      (revoke-IsTrue sends socket_id app_name (λ a. recorded socket_id a g) previous payload decided
        d (record { told = λ a. refl; others = λ s a v n. refl }))
      (revoke-stopped sends socket_id app_name previous payload decided d)

emit_decision-Tells :
    (sends : Kind → Bool) (subscriber : ApplicationSubscriber) (force : Bool) (g : Gateway)
    (m : DispatchMetrics) (p : Option Release × UpdateDecision)
    → Tells g (emit_decision sends subscriber force g m p)
unfolding emit_decision view
emit_decision-Tells sends subscriber force g m (payload, decision) =
    elim (Bool-cases (is_current subscriber g.subscriptions)) [
      | inr stale ↦ rw stale (λ s a. refl)
      | inl current ↦ rw current (
          deliver-Tells sends subscriber.socket_id subscriber.application.input.app_name force g
            payload decision.release
            (skip_without payload decision.skip_reason (count_eligible decision.release m)))
    ]

-- However the sends of a decision end, what a client shows for an application, by the messages that
-- were sent to it, is what the gateway records for it afterwards, if it was so before: a failed
-- revocation or update leaves no record of a release that the client does not show.
pub emit_current_decision-Tells :
    (present : Bool) (sends : Kind → Bool) (subscriber : ApplicationSubscriber)
    (catalog : ReleaseCatalog) (force : Bool) (g : Gateway) (m : DispatchMetrics) (e : Emission)
    → emit_current_decision present sends subscriber catalog force g m ≡ ok e
    → Tells g e
unfolding emit_current_decision view
emit_current_decision-Tells present sends subscriber catalog force g m e h =
    elim (Bool-cases (is_current subscriber g.subscriptions)) [
      | inr stale ↦
          let r : skipped subscription_changed g (scan m) ≡ e = ground (arith, stale, h) in
          subst (Tells g) r (λ s a. refl)
      | inl current ↦ elim (Bool-cases present) [
        | inr gone ↦
            let r : skipped disconnected g (scan m) ≡ e = ground (arith, current, gone, h) in
            subst (Tells g) r (λ s a. refl)
        | inl there ↦
            let (p, _, q) =
              >>=-eq-ok (resolve_available_decision (query_of subscriber) catalog)
                (λ decided. ok (emit_decision sends subscriber force g (scan m) decided)) {end = e}
                (ground (arith, current, there, h)) in
            let r : emit_decision sends subscriber force g (scan m) p ≡ e = cc q in
            subst (Tells g) r (emit_decision-Tells sends subscriber force g (scan m) p)
      ]
    ]
