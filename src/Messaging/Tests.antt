-- ===== src/Messaging/Tests.antt =====
-- The theorems on messages at concrete messages.
use ota_api.Messaging.Rows.{has_message_id, is_keyed, without_id}
use ota_api.Contracts.UserId.{parse_user_id}
use ota_api.Messaging.{
  ApplicationMessage, MessageTarget, ack, create, create_user_id, device, envelope_of, find_message,
  new_message, query, query_user_id, same_target, target_of_parsed, upsert, user, user_target,
}
use ota_api.Messaging.Delivery.{
  ack-Acknowledges, create_user_id-query_user_id, query-keeps_replacement,
}
use ota_api.Prelude.{
  List, Text, [], any, ap, arith, false, find, if◌then◌else◌, inr, list_beq, nat_eq, none, ok,
  option_text_eq, refl, some, split, text, text_eq, ℕ, ◌∷◌, ◌≡◌,
}

abbrev a_user_id : Text
a_user_id = text "shop:ios:u"

abbrev a_target : MessageTarget
a_target = record { app_name = text "shop"; target_type = user; target_id = text "shop:ios:u" }

abbrev a_device : MessageTarget
a_device = record { app_name = text "shop"; target_type = device; target_id = text "d1" }

abbrev old_message : ApplicationMessage ℕ
old_message = record {
  target = a_target;
  content = 7;
  message_id = text "m1";
  updated_at = 0;
  expires_at = 10;
}

abbrev device_message : ApplicationMessage ℕ
device_message = record {
  target = a_device;
  content = 9;
  message_id = text "m1";
  updated_at = 0;
  expires_at = 50;
}

abbrev two_messages : List (ApplicationMessage ℕ)
two_messages = device_message ∷ old_message ∷ []

abbrev created_message : ApplicationMessage ℕ
created_message = new_message 0 a_target (some 5) 100 (text "m2") 20

abbrev replaced_messages : List (ApplicationMessage ℕ)
replaced_messages = device_message ∷ created_message ∷ []

create_user_id-query_user_id_example :
    query_user_id {Json = ℕ} (λ ms. []) a_user_id 119 replaced_messages
    ≡ ok (replaced_messages, some (envelope_of created_message))
unfolding create_user_id create upsert same_target user_target target_of_parsed parse_user_id split
    find list_beq
create_user_id-query_user_id_example =
    create_user_id-query_user_id 0 (λ ms. []) a_user_id (some 5) 100 (text "m2") 20 119 two_messages
      replaced_messages (envelope_of created_message) refl (omega arith)

-- the expired message is replaced between the read and the deletion
query-keeps_replacement_example :
    ((query {Json = ℕ} (λ ms. replaced_messages) a_target 20 two_messages).1 ≡ none)
    × (find_message a_target (query (λ ms. replaced_messages) a_target 20 two_messages).0
        ≡ some created_message)
unfolding find_message same_target is_keyed any list_beq
query-keeps_replacement_example =
    query-keeps_replacement (λ ms. replaced_messages) a_target a_target 20 two_messages old_message
      created_message refl (omega arith) refl refl
      (inr (λ h. absurd (cc (ap (list_beq (text "m1")) h))))

ack-Acknowledges_example :
    let (ns, acked) = ack {Json = ℕ} a_target (text "m1") two_messages in
    (acked ≡ has_message_id (text "m1") (find_message a_target two_messages))
    × (find_message a_device ns ≡ (
        if same_target a_target a_device
        then without_id (text "m1") (find_message a_device two_messages)
        else find_message a_device two_messages))
    × ((ack a_target (text "m1") ns).1 ≡ false)
unfolding is_keyed any same_target list_beq
ack-Acknowledges_example = ack-Acknowledges a_target a_device (text "m1") two_messages refl
