-- ===== src/Contracts/Version/Numeric.antt =====
-- The order of versions is the order of their numeric components.
use ota_api.Contracts.Version.{
  is_digit, is_numeral, three_numerals, is_app_version, text_gt, compare_component, compare_parts,
  compare_versions,
}
use ota_api.Prelude.{
  All, List, Ordering, Text, [], all-eq-true_from, ap, arith, compare, if◌then◌else◌, length,
  list_beq, map, nat_eq, ok, option_text_eq, refl, split, suc, text_eq, true, ℕ, ℕ_discrete, ◌*◌,
  ◌+◌, ◌-◌, ◌<◌, ◌∙◌, ◌∷◌, ◌≡◌, ◌≤◌,
}

-- The number that digits stand for, read from the left.
pub value_from : ℕ → Text → ℕ
value_from acc [] = acc
value_from acc (c ∷ t) = value_from (acc * 10 + (c - b'0')) t

abbrev pub IsDigits : Text → Type 0
IsDigits t = All (λ c. is_digit c ≡ true) t

value_from-lt :
    (a b : Text) (m n : ℕ)
    → IsDigits a
    → length a ≡ length b
    → m < n
    → value_from m a < value_from n b
unfolding value_from is_digit
value_from-lt [] [] m n d e h = h
value_from-lt (x ∷ a) (y ∷ b) m n d e h = value_from-lt a b _ _ d.1 (omega arith) (ground arith)
value_from-lt [] (y ∷ b) m n d e h = absurd (omega arith)
value_from-lt (x ∷ a) [] m n d e h = absurd (omega arith)

value_from-lt_longer :
    (a b : Text) (n : ℕ)
    → IsDigits a
    → length a ≤ length b
    → 0 < n
    → value_from 0 a < value_from n b
unfolding value_from
value_from-lt_longer a [] n d e h = value_from-lt a [] 0 n d (omega arith) h
value_from-lt_longer a (y ∷ b) n d e h = elim (ℕ_discrete (length a) (suc (length b))) [
  | yes p ↦ value_from-lt a (y ∷ b) 0 n d p h
  | no p ↦ value_from-lt_longer a b _ d (omega arith) (omega arith)
]

text_gt-value :
    (a b : Text) (m : ℕ)
    → IsDigits a
    → IsDigits b
    → length a ≡ length b
    → (if list_beq a b then Ordering.eq else if text_gt a b then Ordering.gt else Ordering.lt)
      ≡ compare (value_from m a) (value_from m b)
unfolding value_from text_gt list_beq is_digit
text_gt-value [] [] m da db e = ground arith
text_gt-value (x ∷ a) (y ∷ b) m da db e = elim (ℕ_discrete x y) [
  | yes p ↦ rw p (ground (arith, text_gt-value a b (m * 10 + (y - b'0')) da.1 db.1))
  | no p ↦ ground (
    arith,
    value_from-lt a b (m * 10 + (x - b'0')) (m * 10 + (y - b'0')) da.1,
    value_from-lt b a (m * 10 + (y - b'0')) (m * 10 + (x - b'0')) db.1,
  )
]
text_gt-value [] (y ∷ b) m da db e = absurd (omega arith)
text_gt-value (x ∷ a) [] m da db e = absurd (omega arith)

numeral-IsDigits : (t : Text) → is_numeral t ≡ true → IsDigits t
unfolding is_numeral
numeral-IsDigits [] h = cc
numeral-IsDigits (c ∷ []) h = ground arith
numeral-IsDigits (c ∷ d ∷ t) h = ground (arith, all-eq-true_from is_digit (d ∷ t))

-- A longer numeral is greater: it does not begin with zero.
longer_numeral :
    (a b : Text)
    → is_numeral a ≡ true
    → is_numeral b ≡ true
    → length a < length b
    → value_from 0 a < value_from 0 b
unfolding is_numeral value_from
longer_numeral a [] ha hb h = cc
longer_numeral [] (c ∷ b) ha hb h = cc
longer_numeral (x ∷ a) (c ∷ []) ha hb h = absurd (omega arith)
longer_numeral (x ∷ a) (c ∷ d ∷ b) ha hb h =
    value_from-lt_longer (x ∷ a) (d ∷ b) (0 * 10 + (c - b'0')) (numeral-IsDigits (x ∷ a) ha)
      (omega arith) (ground arith)

compare_component-value :
    (a b : Text)
    → is_numeral a ≡ true
    → is_numeral b ≡ true
    → compare_component a b ≡ compare (value_from 0 a) (value_from 0 b)
unfolding compare_component
compare_component-value a b ha hb = ground (
  arith,
  text_gt-value a b 0 (numeral-IsDigits a ha) (numeral-IsDigits b hb),
  longer_numeral a b ha hb,
  longer_numeral b a hb ha,
)

abbrev pub lexicographic : Ordering → Ordering → Ordering
lexicographic Ordering.eq o = o
lexicographic o p = o

-- The values of the components, in the order of the text.
pub components : Text → List ℕ
unfolding value_from
components t = map (value_from 0) (split b'.' t)

unfoldable pub compare_components : List ℕ → List ℕ → Ordering
compare_components (m ∷ a) (n ∷ b) = lexicographic (compare m n) (compare_components a b)
compare_components _ _ = Ordering.eq

compare_parts-value :
    (a b : List Text)
    → three_numerals a ≡ true
    → three_numerals b ≡ true
    → compare_parts a b ≡ compare_components (map (value_from 0) a) (map (value_from 0) b)
unfolding three_numerals compare_parts compare_components
compare_parts-value (a1 ∷ a2 ∷ a3 ∷ []) (b1 ∷ b2 ∷ b3 ∷ []) ha hb = ground (
  arith,
  compare_component-value a1 b1,
  compare_component-value a2 b2,
  compare_component-value a3 b3,
)
compare_parts-value _ _ ha hb = cc

-- Two valid versions are compared, and the result is the order of their components as numbers:
-- major first, then minor, then patch.
pub compare_versions-value :
    (left right : Text)
    → is_app_version left ≡ true
    → is_app_version right ≡ true
    → compare_versions left right ≡ ok (compare_components (components left) (components right))
unfolding compare_versions is_app_version components
compare_versions-value left right hl hr =
    ground (arith, compare_parts-value (split b'.' left) (split b'.' right))

three_numerals-length : (l : List Text) → three_numerals l ≡ true → length l ≡ 3
unfolding three_numerals
three_numerals-length (a ∷ b ∷ c ∷ []) h = refl
three_numerals-length _ h = cc

length-map-value : (l : List Text) → length (map (value_from 0) l) ≡ length l
length-map-value [] = refl
length-map-value (t ∷ l) = ap suc (length-map-value l)

pub length-components : (t : Text) → is_app_version t ≡ true → length (components t) ≡ 3
unfolding is_app_version components
length-components t h =
    length-map-value (split b'.' t) ∙ three_numerals-length (split b'.' t) (ground arith)
