-- ===== src/Contracts/Version/Order.antt =====
-- Laws of the order of component lists.
use ota_api.Contracts.Version.Numeric.{compare_components, lexicographic}
use ota_api.Prelude.{
  List, Ordering, [], arith, compare, length, nat_eq, option_text_eq, text_eq, ℕ, ℕ_discrete, ◌++◌,
  ◌∷◌, ◌≡◌, ◌≢◌, ◌≤◌,
}

-- not after
abbrev pub Le : List ℕ → List ℕ → Type 0
Le a b = compare_components a b ≢ Ordering.gt

pub compare_components_asym : (a b : List ℕ) → compare_components a b ≡ Ordering.gt → Le b a
unfolding compare_components
compare_components_asym [] b h = ground arith
compare_components_asym (m ∷ a) [] h = ground arith
compare_components_asym (m ∷ a) (n ∷ b) h = ground (arith, compare_components_asym a b)

pub head_le : (m n : ℕ) (a b : List ℕ) → Le (m ∷ a) (n ∷ b) → m ≤ n
unfolding compare_components
head_le m n a b h = ground arith

tail_Le : (m n : ℕ) (a b : List ℕ) → Le (m ∷ a) (n ∷ b) → n ≤ m → Le a b
unfolding compare_components
tail_Le m n a b h e = ground arith

cons_Le : (m n : ℕ) (a b : List ℕ) → m ≤ n → (m ≡ n → Le a b) → Le (m ∷ a) (n ∷ b)
unfolding compare_components
cons_Le m n a b h t = elim (ℕ_discrete m n) [
  | yes e ↦ let l = t e in ground arith
  | no e ↦ ground arith
]

pub Le_trans :
    (a b c : List ℕ) → length a ≡ length b → length b ≡ length c → Le a b → Le b c → Le a c
unfolding compare_components
Le_trans [] b c p q h k = ground arith
Le_trans (m ∷ a) (n ∷ b) (o ∷ c) p q h k =
    let mn = head_le m n a b h in
    let no = head_le n o b c k in
    cons_Le m o a c (omega arith) (λ e.
      Le_trans a b c (omega arith) (omega arith) (tail_Le m n a b h (omega arith))
        (tail_Le n o b c k (omega arith)))
Le_trans (m ∷ a) [] c p q h k = absurd (omega arith)
Le_trans (m ∷ a) (n ∷ b) [] p q h k = absurd (omega arith)

pub compare_components-append :
    (a b : List ℕ) (s t : ℕ)
    → length a ≡ length b
    → compare_components (a ++ s ∷ []) (b ++ t ∷ [])
      ≡ lexicographic (compare_components a b) (compare s t)
unfolding compare_components
compare_components-append [] [] s t e = ground arith
compare_components-append (m ∷ a) (n ∷ b) s t e = ground (arith, compare_components-append a b s t)
compare_components-append [] (n ∷ b) s t e = absurd (omega arith)
compare_components-append (m ∷ a) [] s t e = absurd (omega arith)

pub Le_refl : (a : List ℕ) → Le a a
unfolding compare_components
Le_refl [] = ground arith
Le_refl (m ∷ a) = ground (arith, Le_refl a)
