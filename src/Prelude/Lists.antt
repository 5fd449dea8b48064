-- ===== src/Prelude/Lists.antt =====
-- Lists measured by native numbers, and occurrences of texts in lists.
use Prim.Native.Nat.{ℕ, zero, suc, ◌+◌, ◌≤◌}
use Prim.Native.String.{String}
use mathlib.Core.Path.{◌≡◌, refl}
use mathlib.Core.Bool.{Bool, true, false, ◌||◌}
use mathlib.Core.Option.{Option, none, some}
use mathlib.Core.List.{List, [], ◌∷◌, ◌++◌}
use native.Mathlib.Omega.{arith}
use text.Mathlib.Text.{◌==◌}
use text.Mathlib.TextPositions.{eq_refl}

module _ {ℓ} {A : Type ℓ} where
  abbrev pub length : List A → ℕ
  length [] = 0
  length (x ∷ xs) = suc (length xs)

  abbrev pub take : ℕ → List A → List A
  take zero xs = []
  take (suc n) [] = []
  take (suc n) (x ∷ xs) = x ∷ take n xs

  abbrev pub replicate : ℕ → A → List A
  replicate zero a = []
  replicate (suc n) a = a ∷ replicate n a

  abbrev pub get_elem? : List A → ℕ → Option A
  get_elem? [] i = none
  get_elem? (x ∷ xs) zero = some x
  get_elem? (x ∷ xs) (suc i) = get_elem? xs i

  pub length-append : (xs ys : List A) → length (xs ++ ys) ≡ length xs + length ys
  length-append [] ys = omega arith
  length-append (x ∷ xs) ys = omega (arith, length-append xs ys)

-- Whether a text stands in a list.
abbrev pub occurs : String → List String → Bool
occurs x [] = false
occurs x (y ∷ l) = y == x || occurs x l

-- 1 if the test holds.
abbrev pub tally : Bool → ℕ
tally true = 1
tally false = 0

-- How often a text stands in a list.
abbrev pub count : String → List String → ℕ
count a [] = 0
count a (x ∷ xs) = tally (x == a) + count a xs

pub count-append : (a : String) (xs ys : List String) → count a (xs ++ ys) ≡ count a xs + count a ys
count-append a [] ys = omega arith
count-append a (x ∷ xs) ys = omega (arith, count-append a xs ys)

-- Every element has the property.
module _ {A : Type 0} (P : A → Type 0) where
  abbrev pub Everyone : List A → Type 0
  Everyone [] = Unit {0}
  Everyone (a ∷ l) = P a × Everyone l

  pub Everyone-append : (l m : List A) → Everyone l → Everyone m → Everyone (l ++ m)
  Everyone-append [] m h k = k
  Everyone-append (a ∷ l) m (p, h) k = (p, Everyone-append l m h k)

  pub Everyone-take : (n : ℕ) (l : List A) → Everyone l → Everyone (take n l)
  Everyone-take zero l h = tt
  Everyone-take (suc n) [] h = tt
  Everyone-take (suc n) (a ∷ l) (p, h) = (p, Everyone-take n l h)

-- What holds of all texts that stand in a list.
pub Everyone-occurs :
    (P : String → Type 0) (l : List String)
    → ((a : String) → occurs a l ≡ true → P a)
    → Everyone P l
Everyone-occurs P [] h = tt
Everyone-occurs P (a ∷ l) h =
    (h a (rw (eq_refl a) refl), Everyone-occurs P l (λ b o. h b (ground (arith, o))))

pub length-take_le : {A : Type 0} (n : ℕ) (l : List A) → length (take n l) ≤ n
length-take_le zero l = omega arith
length-take_le (suc n) [] = omega arith
length-take_le (suc n) (a ∷ l) = omega (arith, length-take_le n l)
