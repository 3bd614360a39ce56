-- ===== src/Contracts/UserId.antt =====
-- src/contracts/user-id.ts
pub mod Parsing
use ota_api.Prelude.{
  ℕ, suc, ◌+◌, ◌≡◌, Bool, false, ◌&&◌, ◌||◌, Option, none, some, Text, length, slice, drop,
  index_of, ltb, leb, list_beq, if◌then◌else◌, is_empty,
}

pub record ParsedUserId : Type 0 where
  pub app_name : Text
  pub platform : Text
  pub business_user_id : Text

-- `parseUserId` once both separators are known
build : Text → ℕ → ℕ → Option ParsedUserId
build value first second =
    let business = drop (suc second) value in
    if is_empty business
    then none
    else some (record {
      app_name = slice 0 first value;
      platform = slice (suc first) second value;
      business_user_id = business;
    })

second_separator : Text → ℕ → Option ParsedUserId
unfolding build
second_separator value first = elim (index_of b':' value (suc first)) [
  | none ↦ none
  | some second ↦ if leb second (first + 1) then none else build value first second
]

first_separator : Text → Option ParsedUserId
unfolding second_separator
first_separator value = elim (index_of b':' value 0) [
  | none ↦ none
  | some first ↦ if leb first 0 then none else second_separator value first
]

unfoldable pub parse_user_id : Text → Option ParsedUserId
unfolding first_separator
parse_user_id value = if ltb 191 (length value) then none else first_separator value

unfoldable pub user_id_matches_context : Text → Text → Text → Bool
user_id_matches_context value app_name platform = elim (parse_user_id value) [
  | none ↦ false
  | some p ↦ list_beq p.app_name app_name && list_beq p.platform platform
]
