-- ===== src/Updates/Decision/Sorting/Best.antt =====
-- Sorting by a key, greatest first: the first element is one of the greatest.
use ota_api.Updates.Decision.Sorting.{insert_by, sort_by}
use ota_api.Contracts.Version.Numeric.{compare_components}
use ota_api.Contracts.Version.Order.{Le_refl, Le, Le_trans, compare_components_asym}
use ota_api.Prelude.{
  All, All-self, In, List, Ordering, Result, [], ap, arith, length, nat_eq, ok, option_text_eq,
  refl, subst, sym, text_eq, ℕ, ◌∙◌, ◌∷◌, ◌≡◌,
}

module _ {E A : Type 0} (key : A → List ℕ) (width : ℕ) (Good : A → Type 0)
    (good_width : (x : A) → Good x → length (key x) ≡ width) (cmp : A → A → Result E Ordering)
    (agrees : (x y : A) → Good x → Good y → cmp x y ≡ ok (compare_components (key y) (key x))) where
  insert_key : A → List A → List A
  insert_key x [] = x ∷ []
  insert_key x (y ∷ ys) = elim (compare_components (key y) (key x)) [
    | Ordering.gt ↦ y ∷ insert_key x ys
    | _ ↦ x ∷ y ∷ ys
  ]

  sort_key : List A → List A
  sort_key [] = []
  sort_key (x ∷ xs) = insert_key x (sort_key xs)

  All-insert_key : (Q : A → Type 0) (x : A) (ys : List A) → Q x → All Q ys → All Q (insert_key x ys)
  unfolding insert_key
  All-insert_key Q x [] q h = (q, tt)
  All-insert_key Q x (y ∷ ys) q h = ground (arith, All-insert_key Q x ys q h.1)

  All-sort_key : (Q : A → Type 0) (xs : List A) → All Q xs → All Q (sort_key xs)
  unfolding sort_key
  All-sort_key Q [] h = tt
  All-sort_key Q (x ∷ xs) h = All-insert_key Q x (sort_key xs) h.0 (All-sort_key Q xs h.1)

  insert_by-insert_key :
      (x : A) (ys : List A) → Good x → All Good ys → insert_by cmp x ys ≡ ok (insert_key x ys)
  unfolding insert_by insert_key
  insert_by-insert_key x [] g h = refl
  insert_by-insert_key x (y ∷ ys) g h =
      rw (agrees x y g h.0) (ground (arith, insert_by-insert_key x ys g h.1))

  sort_by-sort_key : (xs : List A) → All Good xs → sort_by cmp xs ≡ ok (sort_key xs)
  unfolding sort_by sort_key
  sort_by-sort_key [] h = refl
  sort_by-sort_key (x ∷ xs) h =
      rw (sort_by-sort_key xs h.1)
        (insert_by-insert_key x (sort_key xs) h.0 (All-sort_key Good xs h.1))

  -- The first is not below any of the others.
  abbrev HasBestFirst : List A → Type 0
  HasBestFirst [] = Unit
  HasBestFirst (m ∷ ys) = All (λ y. Le (key y) (key m)) ys

  raise :
      (x y : A) (ys : List A)
      → Good x
      → Good y
      → All Good ys
      → Le (key y) (key x)
      → All (λ z. Le (key z) (key y)) ys
      → All (λ z. Le (key z) (key x)) ys
  raise x y [] gx gy g h k = tt
  raise x y (z ∷ ys) gx gy g h k = (
    Le_trans (key z) (key y) (key x) (good_width z g.0 ∙ sym (good_width y gy))
        (good_width y gy ∙ sym (good_width x gx)) k.0 h,
    raise x y ys gx gy g.1 h k.1,
  )

  insert_key-HasBestFirst :
      (x : A) (ys : List A)
      → Good x
      → All Good ys
      → HasBestFirst ys
      → HasBestFirst (insert_key x ys)
  unfolding insert_key
  insert_key-HasBestFirst x [] g gs h = tt
  insert_key-HasBestFirst x (y ∷ ys) g gs h = ground (
    arith,
    compare_components_asym (key y) (key x),
    All-insert_key (λ z. Le (key z) (key y)) x ys,
    raise x y ys g gs.0 gs.1,
  )

  sort_key-HasBestFirst : (xs : List A) → All Good xs → HasBestFirst (sort_key xs)
  unfolding sort_key
  sort_key-HasBestFirst [] g = tt
  sort_key-HasBestFirst (x ∷ xs) g =
      insert_key-HasBestFirst x (sort_key xs) g.0 (All-sort_key Good xs g.1)
        (sort_key-HasBestFirst xs g.1)

  All-of_insert_key :
      (Q : A → Type 0) (x : A) (ys : List A) → All Q (insert_key x ys) → Q x × All Q ys
  unfolding insert_key
  All-of_insert_key Q x [] h = h
  All-of_insert_key Q x (y ∷ ys) h = ground (arith, All-of_insert_key Q x ys)

  All-of_sort_key : (Q : A → Type 0) (xs : List A) → All Q (sort_key xs) → All Q xs
  unfolding sort_key
  All-of_sort_key Q [] h = tt
  All-of_sort_key Q (x ∷ xs) h =
      let (q, k) = All-of_insert_key Q x (sort_key xs) h in (q, All-of_sort_key Q xs k)

  -- An element of the list whose key is not below the key of any other.
  pub record IsBest (xs : List A) (m : A) : Type 0 where
    pub chosen : In m xs
    pub greatest : All (λ y. Le (key y) (key m)) xs

  -- Nothing is thrown on good elements, and the sorted list begins with a best one.
  pub sort_by-IsBest :
      (x : A) (xs : List A)
      → All Good (x ∷ xs)
      → (m : A) × (rest : List A) × (sort_by cmp (x ∷ xs) ≡ ok (m ∷ rest)) × IsBest (x ∷ xs) m
  sort_by-IsBest x xs g = from (sort_key (x ∷ xs)) refl
    where
      from :
          (l : List A)
          → sort_key (x ∷ xs) ≡ l
          → (m : A) × (rest : List A) × (sort_by cmp (x ∷ xs) ≡ ok (m ∷ rest)) × IsBest (x ∷ xs) m
      from [] e = absurd (All-of_sort_key (λ _. ⊥) (x ∷ xs) (rw e tt)).0
      from (m ∷ rest) e =
          let best : HasBestFirst (m ∷ rest) =
            subst HasBestFirst e (sort_key-HasBestFirst (x ∷ xs) g) in
          let all : All (λ y. Le (key y) (key m)) (x ∷ xs) =
            All-of_sort_key _ (x ∷ xs)
              (subst (All (λ y. Le (key y) (key m))) (sym e) (Le_refl (key m), best)) in
          let mem : All (λ y. In y (x ∷ xs)) (m ∷ rest) =
            subst (All (λ y. In y (x ∷ xs))) e
              (All-sort_key (λ y. In y (x ∷ xs)) (x ∷ xs) (All-self (x ∷ xs))) in
          (
            m,
            rest,
            sort_by-sort_key (x ∷ xs) g ∙ ap ok e,
            record { chosen = mem.0; greatest = all },
          )
