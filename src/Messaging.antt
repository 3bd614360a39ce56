-- ===== src/Messaging.antt =====
-- src/messaging/last-message.service.ts: the last message of a user and of a device.
pub mod Rows
pub mod Delivery
mod Tests
use ota_api.Contracts.UserId.{ParsedUserId, parse_user_id}
use ota_api.Prelude.{
  Bool, List, Option, Result, Text, [], any, err, false, if◌then◌else◌, leb, nat_eq, none, ok,
  option_text_eq, some, text_eq, true, ℕ, ◌&&◌, ◌+◌, ◌==◌, ◌>>=◌, ◌>>◌, ◌∷◌,
}

pub data TargetType : Type 0 where
  user device : TargetType

pub record MessageTarget : Type 0 where
  pub app_name : Text
  pub target_type : TargetType
  pub target_id : Text

abbrev pub same_type : TargetType → TargetType → Bool
same_type user user = true
same_type device device = true
same_type _ _ = false

unfoldable pub same_target : MessageTarget → MessageTarget → Bool
same_target s t =
    s.app_name == t.app_name
    && (same_type s.target_type t.target_type && s.target_id == t.target_id)

pub data MessageError : Type 0 where
  invalid_user_id : MessageError

-- `userTarget`: the application of the identifier, and the identifier itself
unfoldable pub target_of_parsed : Text → Option ParsedUserId → Result MessageError MessageTarget
target_of_parsed user_id none = err invalid_user_id
target_of_parsed user_id (some parsed) =
    ok (record { app_name = parsed.app_name; target_type = user; target_id = user_id })

unfoldable pub user_target : Text → Result MessageError MessageTarget
unfolding target_of_parsed parse_user_id
user_target user_id = target_of_parsed user_id (parse_user_id user_id)

unfoldable pub device_target : Text → Text → MessageTarget
device_target app_name unique_id = record {
  app_name = app_name;
  target_type = device;
  target_id = unique_id;
}

-- A row of the entity. The data of a message is a JSON value, which is stored as its text and parsed
-- back; times are milliseconds.
pub record ApplicationMessage (Json : Type 0) : Type 0 where
  pub target : MessageTarget
  pub content : Json
  pub message_id : Text
  pub updated_at : ℕ
  pub expires_at : ℕ

pub record TargetedMessageEnvelope (Json : Type 0) : Type 0 where
  pub message_id : Text
  pub content : Json
  pub updated_at : ℕ
  pub expires_at : ℕ
  pub ack_required : Bool

module _ {Json : Type 0} where
  -- `findOneBy(target)`
  unfoldable pub find_message :
      MessageTarget → List (ApplicationMessage Json) → Option (ApplicationMessage Json)
  unfolding same_target
  find_message t [] = none
  find_message t (m ∷ ms) = if same_target m.target t then some m else find_message t ms

  abbrev pub is_message : MessageTarget → Text → ApplicationMessage Json → Bool
  is_message t message_id m = same_target m.target t && m.message_id == message_id

  -- `delete({ ...target, messageId })` and what it affects
  unfoldable pub delete_message :
      MessageTarget → Text → List (ApplicationMessage Json) → List (ApplicationMessage Json)
  unfolding same_target
  delete_message t message_id [] = []
  delete_message t message_id (m ∷ ms) =
      if is_message t message_id m
      then delete_message t message_id ms
      else m ∷ delete_message t message_id ms

  -- `upsert` by the target
  unfoldable pub upsert :
      ApplicationMessage Json → List (ApplicationMessage Json) → List (ApplicationMessage Json)
  unfolding same_target
  upsert n [] = n ∷ []
  upsert n (m ∷ ms) = if same_target m.target n.target then n ∷ ms else m ∷ upsert n ms

  abbrev pub envelope_of : ApplicationMessage Json → TargetedMessageEnvelope Json
  envelope_of m = record {
    message_id = m.message_id;
    content = m.content;
    updated_at = m.updated_at;
    expires_at = m.expires_at;
    ack_required = true;
  }

  -- behind the read of `query`: `between` is what others write before the expired message is deleted
  unfoldable pub query_found :
      (between : List (ApplicationMessage Json) → List (ApplicationMessage Json))
      → MessageTarget
      → ℕ
      → List (ApplicationMessage Json)
      → Option (ApplicationMessage Json)
      → List (ApplicationMessage Json) × Option (TargetedMessageEnvelope Json)
  unfolding delete_message
  query_found between t now ms none = (ms, none)
  query_found between t now ms (some m) =
      if leb m.expires_at now
      then (delete_message t m.message_id (between ms), none)
      else (ms, some (envelope_of m))

  unfoldable pub query :
      (between : List (ApplicationMessage Json) → List (ApplicationMessage Json))
      → MessageTarget
      → ℕ
      → List (ApplicationMessage Json)
      → List (ApplicationMessage Json) × Option (TargetedMessageEnvelope Json)
  unfolding query_found find_message
  query between t now ms = query_found between t now ms (find_message t ms)

  -- `data === undefined ? null : data`
  abbrev pub normalized : Json → Option Json → Json
  normalized null none = null
  normalized null (some content) = content

  abbrev pub new_message :
      Json → MessageTarget → Option Json → ℕ → Text → ℕ → ApplicationMessage Json
  new_message null t content ttl_ms message_id now = record {
    target = t;
    content = normalized null content;
    message_id = message_id;
    updated_at = now;
    expires_at = now + ttl_ms;
  }

  unfoldable pub create :
      Json
      → MessageTarget
      → Option Json
      → ℕ
      → Text
      → ℕ
      → List (ApplicationMessage Json)
      → List (ApplicationMessage Json) × TargetedMessageEnvelope Json
  unfolding upsert
  create null t content ttl_ms message_id now ms =
      let m = new_message null t content ttl_ms message_id now in (upsert m ms, envelope_of m)

  unfoldable pub ack :
      MessageTarget → Text → List (ApplicationMessage Json) → List (ApplicationMessage Json) × Bool
  unfolding delete_message
  ack t message_id ms = (delete_message t message_id ms, any (is_message t message_id) ms)

  -- the operations of a user, which fail where the identifier is none
  unfoldable pub query_user_id :
      (between : List (ApplicationMessage Json) → List (ApplicationMessage Json))
      → Text
      → ℕ
      → List (ApplicationMessage Json)
      → Result MessageError (List (ApplicationMessage Json) × Option (TargetedMessageEnvelope Json))
  unfolding query user_target
  query_user_id between user_id now ms = do t ← user_target user_id; ok (query between t now ms)

  unfoldable pub create_user_id :
      Json
      → Text
      → Option Json
      → ℕ
      → Text
      → ℕ
      → List (ApplicationMessage Json)
      → Result MessageError (List (ApplicationMessage Json) × TargetedMessageEnvelope Json)
  unfolding create user_target
  create_user_id null user_id content ttl_ms message_id now ms = do
    t ← user_target user_id
    ok (create null t content ttl_ms message_id now ms)

  unfoldable pub ack_user_id :
      Text
      → Text
      → List (ApplicationMessage Json)
      → Result MessageError (List (ApplicationMessage Json) × Bool)
  unfolding ack user_target
  ack_user_id user_id message_id ms = do t ← user_target user_id; ok (ack t message_id ms)

  unfoldable pub query_unique_id :
      (between : List (ApplicationMessage Json) → List (ApplicationMessage Json))
      → Text
      → Text
      → ℕ
      → List (ApplicationMessage Json)
      → List (ApplicationMessage Json) × Option (TargetedMessageEnvelope Json)
  unfolding query device_target
  query_unique_id between app_name unique_id now ms =
      query between (device_target app_name unique_id) now ms

  unfoldable pub create_unique_id :
      Json
      → Text
      → Text
      → Option Json
      → ℕ
      → Text
      → ℕ
      → List (ApplicationMessage Json)
      → List (ApplicationMessage Json) × TargetedMessageEnvelope Json
  unfolding create device_target
  create_unique_id null app_name unique_id content ttl_ms message_id now ms =
      create null (device_target app_name unique_id) content ttl_ms message_id now ms

  unfoldable pub ack_unique_id :
      Text → Text → Text → List (ApplicationMessage Json) → List (ApplicationMessage Json) × Bool
  unfolding ack device_target
  ack_unique_id app_name unique_id message_id ms =
      ack (device_target app_name unique_id) message_id ms
