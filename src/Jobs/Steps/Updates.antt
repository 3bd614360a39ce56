-- ===== src/Jobs/Steps/Updates.antt =====
-- Conditional updates of rows: what they keep and what they change.
use ota_api.Jobs.Rows.{find_where, update_where}
use ota_api.Prelude.{
  All, Bool, Bool-cases, In, List, [], arith, false, if◌then◌else◌, inl, inr, nat_eq,
  option_text_eq, refl, some, text_eq, true, ◌∷◌, ◌≡◌,
}

module _ {A : Type 0} (test : A → Bool) (change : A → A) where
  pub All-update_where :
      (P Q : A → Type 0) (xs : List A)
      → ((x : A) → P x → test x ≡ true → Q (change x))
      → ((x : A) → P x → test x ≡ false → Q x)
      → All P xs
      → All Q (update_where test change xs)
  unfolding update_where
  All-update_where P Q [] changed kept h = tt
  All-update_where P Q (x ∷ xs) changed kept h = (
    elim (Bool-cases (test x)) [ inl e ↦ rw e (changed x h.0 e) | inr e ↦ rw e (kept x h.0 e) ],
    All-update_where P Q xs changed kept h.1,
  )

  -- An element behind an update, with the element before it.
  pub In-update_where :
      (y : A) (xs : List A)
      → In y (update_where test change xs)
      → (x : A) × In x xs × (y ≡ (if test x then change x else x))
  unfolding update_where
  In-update_where y [] h = elim h [ ]
  In-update_where y (x ∷ xs) (inl e) = (x, inl refl, e)
  In-update_where y (x ∷ xs) (inr h) = let (z, i, e) = In-update_where y xs h in (z, inr i, e)

pub find_where-some :
    {A : Type 0} (p : A → Bool) (xs : List A) {x : A}
    → find_where p xs ≡ some x
    → In x xs × (p x ≡ true)
unfolding find_where
find_where-some p [] h = cc
find_where-some p (y ∷ xs) {x} h = ground (arith, find_where-some p xs {x = x})
