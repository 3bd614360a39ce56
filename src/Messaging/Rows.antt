-- ===== src/Messaging/Rows.antt =====
-- The rows of the last messages, found, put and deleted by their targets.
use ota_api.Messaging.{
  ApplicationMessage, MessageTarget, TargetType, delete_message, device, find_message, is_message,
  same_target, same_type, upsert, user,
}
use ota_api.Prelude.{
  Bool, List, Option, Text, [], any, arith, false, if◌then◌else◌, nat_eq, none, not, option_text_eq,
  refl, some, text_eq, true, ◌&&◌, ◌==◌, ◌↔◌, ◌∷◌, ◌≡◌,
}

same_type_iff : (s t : TargetType) → (same_type s t ≡ true) ↔ (s ≡ t)
same_type_iff user user = (λ h. refl, λ h. refl)
same_type_iff device device = (λ h. refl, λ h. refl)
same_type_iff user device = (λ h. absurd (cc h), λ h. absurd (cc h))
same_type_iff device user = (λ h. absurd (cc h), λ h. absurd (cc h))

pub same_target_iff : (s t : MessageTarget) → (same_target s t ≡ true) ↔ (s ≡ t)
unfolding same_target
same_target_iff s t = grind (
  arith,
  same_type_iff s.target_type t.target_type,
  text_eq.beq_iff s.app_name t.app_name,
  text_eq.beq_iff s.target_id t.target_id,
)

-- the targets of the rows differ, as the entity's key says
unfoldable pub is_keyed : {Json : Type 0} → List (ApplicationMessage Json) → Bool
unfolding any same_target
is_keyed [] = true
is_keyed (m ∷ ms) = not (any (λ n. same_target n.target m.target) ms) && is_keyed ms

module _ {Json : Type 0} where
  pub find-upsert :
      (u : MessageTarget) (n : ApplicationMessage Json) (ms : List (ApplicationMessage Json))
      → find_message u (upsert n ms)
        ≡ (if same_target n.target u then some n else find_message u ms)
  unfolding find_message upsert
  find-upsert u n [] = refl
  find-upsert u n (m ∷ ms) = ground (
    arith,
    find-upsert u n ms,
    same_target_iff m.target n.target,
    same_target_iff n.target u,
    same_target_iff m.target u,
  )

  pub find-delete_message :
      (t u : MessageTarget) (message_id : Text) (ms : List (ApplicationMessage Json))
      → same_target t u ≡ false
      → find_message u (delete_message t message_id ms) ≡ find_message u ms
  unfolding find_message delete_message
  find-delete_message t u message_id [] h = refl
  find-delete_message t u message_id (m ∷ ms) h = ground (
    arith,
    find-delete_message t u message_id ms h,
    same_target_iff t u,
    same_target_iff m.target t,
    same_target_iff m.target u,
  )

  find-absent :
      (t : MessageTarget) (ms : List (ApplicationMessage Json))
      → any (λ n. same_target n.target t) ms ≡ false
      → find_message t ms ≡ none
  unfolding find_message any
  find-absent t [] h = refl
  find-absent t (m ∷ ms) h = ground (arith, find-absent t ms)

  any-delete_message :
      (t u : MessageTarget) (message_id : Text) (ms : List (ApplicationMessage Json))
      → any (λ k. same_target k.target u) ms ≡ false
      → any (λ k. same_target k.target u) (delete_message t message_id ms) ≡ false
  unfolding any delete_message
  any-delete_message t u message_id [] h = refl
  any-delete_message t u message_id (m ∷ ms) h =
      ground (arith, any-delete_message t u message_id ms)

  pub delete_message-is_keyed :
      (t : MessageTarget) (message_id : Text) (ms : List (ApplicationMessage Json))
      → is_keyed ms ≡ true
      → is_keyed (delete_message t message_id ms) ≡ true
  unfolding is_keyed delete_message
  delete_message-is_keyed t message_id [] h = refl
  delete_message-is_keyed t message_id (m ∷ ms) h =
      ground (
        arith,
        delete_message-is_keyed t message_id ms,
        any-delete_message t m.target message_id ms,
      )

  -- the message of an identifier, if that is the target's message
  abbrev pub without_id : Text → Option (ApplicationMessage Json) → Option (ApplicationMessage Json)
  without_id message_id none = none
  without_id message_id (some m) = if m.message_id == message_id then none else some m

  abbrev pub has_message_id : Text → Option (ApplicationMessage Json) → Bool
  has_message_id message_id none = false
  has_message_id message_id (some m) = m.message_id == message_id

  pub find-delete_own :
      (t : MessageTarget) (message_id : Text) (ms : List (ApplicationMessage Json))
      → is_keyed ms ≡ true
      → find_message t (delete_message t message_id ms) ≡ without_id message_id (find_message t ms)
  unfolding find_message delete_message is_keyed
  find-delete_own t message_id [] h = refl
  find-delete_own t message_id (m ∷ ms) h =
      ground (arith, find-delete_own t message_id ms, find-absent t ms, same_target_iff m.target t)

  pub any-is_message :
      (t : MessageTarget) (message_id : Text) (ms : List (ApplicationMessage Json))
      → is_keyed ms ≡ true
      → any (is_message t message_id) ms ≡ has_message_id message_id (find_message t ms)
  unfolding find_message any is_keyed
  any-is_message t message_id [] h = refl
  any-is_message t message_id (m ∷ ms) h =
      ground (arith, any-is_message t message_id ms, find-absent t ms, same_target_iff m.target t)

  pub has_message_id-without_id :
      (message_id : Text) (o : Option (ApplicationMessage Json))
      → has_message_id message_id (without_id message_id o) ≡ false
  has_message_id-without_id message_id none = refl
  has_message_id-without_id message_id (some m) = ground arith
