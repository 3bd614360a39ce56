-- ===== src/Contracts/Version.antt =====
-- src/contracts/version.ts
pub mod Numeric
pub mod Order
use ota_api.Prelude.{
  all, list_beq, is_empty, length, nat_beq, split, Text, Bool, List, Ordering, Result, [], err,
  false, if◌then◌else◌, leb, ltb, ok, true, ℕ, ◌&&◌, ◌∷◌,
}

pub data VersionError : Type 0 where
  invalid_display_version : VersionError

unfoldable pub is_digit : ℕ → Bool
is_digit c = leb b'0' c && leb c b'9'

-- `0|[1-9]\d*`
unfoldable pub is_numeral : Text → Bool
unfolding is_digit
is_numeral [] = false
is_numeral (c ∷ t) =
    if nat_beq c b'0' then is_empty t else leb b'1' c && (leb c b'9' && all is_digit t)

three_numerals : List Text → Bool
three_numerals (a ∷ b ∷ c ∷ []) = is_numeral a && (is_numeral b && is_numeral c)
three_numerals _ = false

unfoldable pub is_app_version : Text → Bool
unfolding three_numerals
is_app_version value = leb (length value) 128 && three_numerals (split b'.' value)

-- `a > b` on strings: by code units
unfoldable pub text_gt : Text → Text → Bool
text_gt [] b = false
text_gt (x ∷ a) [] = true
text_gt (x ∷ a) (y ∷ b) = if nat_beq x y then text_gt a b else ltb y x

compare_component : Text → Text → Ordering
compare_component a b =
    if nat_beq (length a) (length b)
    then (if list_beq a b then Ordering.eq else if text_gt a b then Ordering.gt else Ordering.lt)
    else if ltb (length b) (length a)
    then Ordering.gt
    else Ordering.lt

-- the loop over the three components
compare_parts : List Text → List Text → Ordering
unfolding compare_component
compare_parts (x ∷ a) (y ∷ b) = elim (compare_component x y) [
  | Ordering.eq ↦ compare_parts a b
  | other ↦ other
]
compare_parts _ _ = Ordering.eq

-- the sign of the result; two invalid versions are not compared
unfoldable pub compare_versions : Text → Text → Result VersionError Ordering
unfolding compare_parts
compare_versions left right =
    if is_app_version left && is_app_version right
    then ok (compare_parts (split b'.' left) (split b'.' right))
    else err invalid_display_version
