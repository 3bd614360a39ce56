-- ===== src/Messaging/Delivery.antt =====
-- The last message of a target: what is stored, asked for and acknowledged.
use ota_api.Messaging.Rows.{
  same_target_iff, is_keyed, find-upsert, find-delete_message, delete_message-is_keyed, without_id,
  has_message_id, find-delete_own, any-is_message, has_message_id-without_id,
}
use ota_api.Messaging.{
  ApplicationMessage, MessageTarget, delete_message, find_message, same_target,
  TargetedMessageEnvelope, ack, create, create_user_id, new_message, query, query_found,
  query_user_id, user_target,
}
use ota_api.Prelude.{
  >>=-eq-ok, List, Option, Text, ap, arith, false, if◌then◌else◌, nat_eq, none, ok, option_text_eq,
  some, text_eq, true, ℕ, ◌+◌, ◌<◌, ◌∙◌, ◌≡◌, ◌≢◌, ◌≤◌, ◌⊎◌,
}

-- A message that was created for a user is what a query of that user returns at any time before the
-- message expires, and the query changes nothing.
pub create_user_id-query_user_id :
    {Json : Type 0} (null : Json)
    (between : List (ApplicationMessage Json) → List (ApplicationMessage Json)) (user_id : Text)
    (content : Option Json) (ttl_ms : ℕ) (message_id : Text) (now later : ℕ)
    (ms ns : List (ApplicationMessage Json)) (created : TargetedMessageEnvelope Json)
    → create_user_id null user_id content ttl_ms message_id now ms ≡ ok (ns, created)
    → later < now + ttl_ms
    → query_user_id between user_id later ns ≡ ok (ns, some created)
unfolding create_user_id create query_user_id query query_found
create_user_id-query_user_id null between user_id content ttl_ms message_id now later ms ns created
      h early =
    let (t, e, q) =
      >>=-eq-ok (user_target user_id) (λ t. ok (create null t content ttl_ms message_id now ms))
        h in
    rw e (
      ground (
        arith,
        q,
        find-upsert t (new_message null t content ttl_ms message_id now) ms,
        same_target_iff t t,
      ))

-- A query that finds an expired message returns none and leaves a message of any target that others
-- wrote before the deletion, unless it has the target and the identifier of the expired one.
pub query-keeps_replacement :
    {Json : Type 0} (between : List (ApplicationMessage Json) → List (ApplicationMessage Json))
    (t u : MessageTarget) (now : ℕ) (ms : List (ApplicationMessage Json))
    (expired kept : ApplicationMessage Json)
    → find_message t ms ≡ some expired
    → expired.expires_at ≤ now
    → is_keyed (between ms) ≡ true
    → find_message u (between ms) ≡ some kept
    → (t ≢ u) ⊎ (kept.message_id ≢ expired.message_id)
    → ((query between t now ms).1 ≡ none) × (find_message u (query between t now ms).0 ≡ some kept)
unfolding query query_found
query-keeps_replacement between t u now ms expired kept h late keyed found apart = ground (
  arith,
  h,
  find-delete_message t u expired.message_id (between ms),
  find-delete_own t expired.message_id (between ms) keyed,
  same_target_iff t u,
  text_eq.beq_iff kept.message_id expired.message_id,
)

-- An acknowledgement answers whether the target's message has the identifier, removes that message
-- only, leaves the messages of the other targets, and answers no when it is repeated.
pub ack-Acknowledges :
    {Json : Type 0} (t u : MessageTarget) (message_id : Text) (ms : List (ApplicationMessage Json))
    → is_keyed ms ≡ true
    → let (ns, acked) = ack t message_id ms in
      (acked ≡ has_message_id message_id (find_message t ms))
      × (find_message u ns ≡ (
          if same_target t u then without_id message_id (find_message u ms) else find_message u ms))
      × ((ack t message_id ns).1 ≡ false)
unfolding ack
ack-Acknowledges t u message_id ms keyed = (
  any-is_message t message_id ms keyed,
  ground (
    arith,
    same_target_iff t u,
    find-delete_own t message_id ms keyed,
    find-delete_message t u message_id ms,
  ),
  any-is_message t message_id (delete_message t message_id ms)
        (delete_message-is_keyed t message_id ms keyed)
      ∙ ap (has_message_id message_id) (find-delete_own t message_id ms keyed)
      ∙ has_message_id-without_id message_id (find_message t ms),
)
