-- ===== src/Prelude/Maps.antt =====
-- `Map` and `Set` of the language: entries in the order of insertion.
use mathlib.Core.Path.{◌≡◌, refl}
use mathlib.Core.Logic.{inl, inr}
use mathlib.Core.Bool.{true, false}
use mathlib.Core.Option.{Option, none, some}
use mathlib.Core.List.{List, [], ◌∷◌, ◌++◌}
use native.Mathlib.Omega.{arith}
use ota_api.Prelude.Tests.{if◌then◌else◌}
use ota_api.Prelude.Equality.{Eq, ◌==◌}
use ota_api.Prelude.Lists.{In, includes}

module _ {K V : Type 0} ⦃e : Eq K⦄ where
  unfoldable pub get : K → List (K × V) → Option V
  get k [] = none
  get k ((j, v) ∷ m) = if j == k then some v else get k m

  -- keeps the place of a key that is there
  unfoldable pub set : K → V → List (K × V) → List (K × V)
  set k v [] = (k, v) ∷ []
  set k v ((j, w) ∷ m) = if j == k then (k, v) ∷ m else (j, w) ∷ set k v m

  unfoldable pub delete : K → List (K × V) → List (K × V)
  delete k [] = []
  delete k ((j, v) ∷ m) = if j == k then delete k m else (j, v) ∷ delete k m

  unfoldable pub keys : List (K × V) → List K
  keys [] = []
  keys ((j, v) ∷ m) = j ∷ keys m

  pub get-set :
      (k j : K) (v : V) (m : List (K × V))
      → get j (set k v m) ≡ (if k == j then some v else get j m)
  unfolding get set
  get-set k j v [] = refl
  get-set k j v ((i, w) ∷ m) =
      ground (arith, e.beq_iff k j, e.beq_iff i k, e.beq_iff i j, get-set k j v m)

  pub get-delete :
      (k j : K) (m : List (K × V)) → get j (delete k m) ≡ (if k == j then none else get j m)
  unfolding get delete
  get-delete k j [] = ground arith
  get-delete k j ((i, w) ∷ m) =
      ground (arith, e.beq_iff k j, e.beq_iff i k, e.beq_iff i j, get-delete k j m)

  pub In-keys_of_get : (k : K) (m : List (K × V)) {v : V} → get k m ≡ some v → In k (keys m)
  unfolding get keys
  In-keys_of_get k [] h = cc
  In-keys_of_get k ((j, w) ∷ m) {v} h = ground (arith, e.beq_iff j k, In-keys_of_get k m {v = v})

  pub get_of_In-keys : (k : K) (m : List (K × V)) → In k (keys m) → (v : V) × (get k m ≡ some v)
  unfolding get keys
  get_of_In-keys k [] h = elim h [ ]
  get_of_In-keys k ((j, w) ∷ m) (inl p) = (w, ground (arith, e.beq_iff j k))
  get_of_In-keys k ((j, w) ∷ m) (inr h) =
      let (v, q) = get_of_In-keys k m h in (if j == k then w else v, ground arith)

module _ {K : Type 0} ⦃e : Eq K⦄ where
  unfoldable pub add : K → List K → List K
  add k s = if includes s k then s else s ++ k ∷ []

  unfoldable pub remove : K → List K → List K
  remove k [] = []
  remove k (j ∷ s) = if j == k then remove k s else j ∷ remove k s

  pub includes-append :
      (s t : List K) (j : K) → includes (s ++ t) j ≡ (if includes s j then true else includes t j)
  includes-append [] t j = refl
  includes-append (i ∷ s) t j = ground (arith, includes-append s t j)

  pub includes-add :
      (k j : K) (s : List K) → includes (add k s) j ≡ (if k == j then true else includes s j)
  unfolding add
  includes-add k j s = ground (arith, includes-append s (k ∷ []) j, e.beq_iff k j)

  pub includes-remove :
      (k j : K) (s : List K) → includes (remove k s) j ≡ (if k == j then false else includes s j)
  unfolding remove
  includes-remove k j [] = ground arith
  includes-remove k j (i ∷ s) =
      ground (arith, e.beq_iff k j, e.beq_iff i k, e.beq_iff i j, includes-remove k j s)

  -- `new Set(xs)`
  unfoldable pub to_set : List K → List K → List K
  to_set seen [] = seen
  to_set seen (x ∷ xs) = to_set (add x seen) xs
