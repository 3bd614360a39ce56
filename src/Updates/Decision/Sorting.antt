-- ===== src/Updates/Decision/Sorting.antt =====
-- `Array.prototype.sort` and `filter` with callbacks that may throw.
pub mod Best
use ota_api.Prelude.{Bool, List, Ordering, Result, [], if◌then◌else◌, ok, ◌>>=◌, ◌∷◌}

module _ {E A : Type 0} where
  unfoldable pub filter_throwing : (A → Result E Bool) → List A → Result E (List A)
  filter_throwing p [] = ok []
  filter_throwing p (x ∷ xs) = do
    b ← p x
    rest ← filter_throwing p xs
    ok (if b then x ∷ rest else rest)

  -- The order of `x` and `y` is `gt` where `x` goes behind `y`; equal elements keep their order.
  unfoldable pub insert_by : (A → A → Result E Ordering) → A → List A → Result E (List A)
  insert_by cmp x [] = ok (x ∷ [])
  insert_by cmp x (y ∷ ys) = do
    o ← cmp x y
    elim o [ Ordering.gt ↦ (insert_by cmp x ys >>= λ rest. ok (y ∷ rest)) | _ ↦ ok (x ∷ y ∷ ys) ]

  unfoldable pub sort_by : (A → A → Result E Ordering) → List A → Result E (List A)
  unfolding insert_by
  sort_by cmp [] = ok []
  sort_by cmp (x ∷ xs) = do rest ← sort_by cmp xs; insert_by cmp x rest
