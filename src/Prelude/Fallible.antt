-- ===== src/Prelude/Fallible.antt =====
-- A computation that may throw, with `do` blocks.
use mathlib.Core.Path.{◌≡◌, refl}
use mathlib.Core.Bool.{Bool, true, false}

pub data Result (E : Type 0) (A : Type 0) : Type 0 where
  ok : A → Result E A
  err : E → Result E A

infixl 5 ◌>>=◌ ◌>>◌
abbrev pub ◌>>=◌ : {E A B : Type 0} → Result E A → (A → Result E B) → Result E B
ok a >>= f = f a
err e >>= f = err e

abbrev pub ◌>>◌ : {E B : Type 0} → Result E (Unit {0}) → Result E B → Result E B
m >> k = m >>= λ _. k

-- `if (!test) throw e`
abbrev pub require : {E : Type 0} → Bool → E → Result E (Unit {0})
require true e = ok tt
require false e = err e

-- A computation that ends well has a first step that does.
pub >>=-eq-ok :
    {E A B : Type 0} (first : Result E A) (rest : A → Result E B) {end : B}
    → (first >>= rest) ≡ ok end
    → (value : A) × (first ≡ ok value) × (rest value ≡ ok end)
>>=-eq-ok (err thrown) rest h = absurd (cc h)
>>=-eq-ok (ok value) rest h = (value, refl, h)

pub require-eq-ok : {E : Type 0} (b : Bool) (e : E) → (u : Unit {0}) → require b e ≡ ok u → b ≡ true
require-eq-ok true e u h = refl
require-eq-ok false e u h = absurd (cc h)

pub ok_value : {E A : Type 0} (a : A) (r : Result E A) → r ≡ ok a → (b : A) → r ≡ ok b → a ≡ b
ok_value a (ok c) h b k = cc (h, k)
ok_value a (err e) h b k = absurd (cc h)
