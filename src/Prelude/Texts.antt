-- ===== src/Prelude/Texts.antt =====
-- The string operations that the program uses, on UTF-16 code units.
use Prim.Native.Nat.{ℕ, zero, suc, ◌+◌, ◌-◌}
use Prim.Native.Char.{code}
use Prim.Native.String.{String}
use mathlib.Core.Path.{◌≡◌, refl, ap}
use mathlib.Core.Logic.{◌≢◌}
use mathlib.Core.Bool.{Bool, true, false, ◌&&◌, ◌||◌}
use mathlib.Core.Option.{Option, none, some}
use mathlib.Core.Option
use mathlib.Core.List.{List, [], ◌∷◌, ◌++◌, reverse}
use native.Mathlib.Omega.{arith}
use ota_api.Prelude.Tests.{if◌then◌else◌, leb}
use ota_api.Prelude.Equality.{Text, nat_beq}
use ota_api.Prelude.Lists.{length, take, drop, All}

-- An ASCII literal.
abbrev pub text : String → Text
text String.[] = []
text (String.◌∷◌ c s) = code c ∷ text s

unfoldable pub starts_with : Text → Text → Bool
starts_with t [] = true
starts_with [] (c ∷ p) = false
starts_with (d ∷ t) (c ∷ p) = nat_beq d c && starts_with t p

-- `t.indexOf(c)`, where `-1` is `none`
unfoldable pub find : ℕ → Text → Option ℕ
find c [] = none
find c (d ∷ t) = if nat_beq d c then some 0 else Option.map suc (find c t)

-- `t.indexOf(c, from)`
abbrev pub index_of : ℕ → Text → ℕ → Option ℕ
index_of c t from = Option.map (λ k. k + from) (find c (drop from t))

-- `t.slice(from, to)`
abbrev pub slice : ℕ → ℕ → Text → Text
slice from to t = take (to - from) (drop from t)

-- one more code unit for the first part
abbrev prepend : ℕ → List Text → List Text
prepend c [] = (c ∷ []) ∷ []
prepend c (p ∷ ps) = (c ∷ p) ∷ ps

-- `t.split(c)`
unfoldable pub split : ℕ → Text → List Text
split c [] = [] ∷ []
split c (d ∷ t) = if nat_beq d c then [] ∷ split c t else prepend d (split c t)

-- The code units that `trim` takes off: WhiteSpace and LineTerminator of the language.
unfoldable pub is_space : ℕ → Bool
is_space c =
    (leb 9 c && leb c 13)
    || nat_beq c 32
    || nat_beq c 0xA0
    || nat_beq c 0x1680
    || (leb 0x2000 c && leb c 0x200A)
    || nat_beq c 0x2028
    || nat_beq c 0x2029
    || nat_beq c 0x202F
    || nat_beq c 0x205F
    || nat_beq c 0x3000
    || nat_beq c 0xFEFF

unfoldable pub trim_start : Text → Text
trim_start [] = []
trim_start (c ∷ t) = if is_space c then trim_start t else c ∷ t

unfoldable pub trim : Text → Text
unfolding trim_start is_space
trim t = reverse (trim_start (reverse (trim_start t)))

-- `c` does not occur in the text.
abbrev pub Lacks : ℕ → Text → Type 0
Lacks c t = All (λ d. d ≢ c) t

pub find-splits :
    (c : ℕ) (t : Text) {k : ℕ}
    → find c t ≡ some k
    → (t ≡ take k t ++ c ∷ drop (suc k) t) × Lacks c (take k t) × (length (take k t) ≡ k)
unfolding find
find-splits c [] h = ground arith
find-splits c (d ∷ t) {k = zero} h = ground arith
find-splits c (d ∷ t) {k = suc k} h = ground (arith, find-splits c t {k = k})

pub find-append : (c : ℕ) (a r : Text) → Lacks c a → find c (a ++ c ∷ r) ≡ some (length a)
unfolding find
find-append c [] r h = ground arith
find-append c (d ∷ a) r h = ground (arith, find-append c a r)

module _ {ℓ} {A : Type ℓ} where
  pub take-length-append : (a r : List A) → take (length a) (a ++ r) ≡ a
  take-length-append [] r = refl
  take-length-append (x ∷ a) r = ap (◌∷◌ x) (take-length-append a r)

  pub drop-length-append : (a r : List A) → drop (length a) (a ++ r) ≡ r
  drop-length-append [] r = refl
  drop-length-append (x ∷ a) r = drop-length-append a r

  pub drop-suc-length-append : (a r : List A) (x : A) → drop (suc (length a)) (a ++ x ∷ r) ≡ r
  drop-suc-length-append [] r x = refl
  drop-suc-length-append (y ∷ a) r x = drop-suc-length-append a r x

  pub drop-add : (m n : ℕ) (xs : List A) → drop (m + n) xs ≡ drop m (drop n xs)
  drop-add m zero xs = ap (λ k. drop k xs) (omega arith)
  drop-add m (suc n) (x ∷ xs) =
      let e : m + suc n ≡ suc (m + n) = omega arith in rw e (drop-add m n xs)
  drop-add zero (suc n) [] = let e : 0 + suc n ≡ suc n = omega arith in rw e
  drop-add (suc m) (suc n) [] = let e : suc m + suc n ≡ suc (m + suc n) = omega arith in rw e
