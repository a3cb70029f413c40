-- ===== src/Base/Lists.antt =====
-- Lists measured by native numbers.
use Prim.Native.Nat.{ℕ, zero, suc, ◌+◌, ◌≤◌}
use mathlib.Core.Path.{◌≡◌, refl, ap}
use mathlib.Core.Logic.{◌≢◌}
use mathlib.Core.List.{List, [], ◌∷◌, ◌++◌}
use mathlib.Core.Bool.{Bool, true, false, ◌&&◌, ◌||◌}
use native.Mathlib.Omega.{arith}

module _ {ℓ} {A : Type ℓ} where
  abbrev pub length : List A → ℕ
  length [] = 0
  length (x ∷ xs) = suc (length xs)

  pub length-append : (xs ys : List A) → length (xs ++ ys) ≡ length xs + length ys
  length-append [] ys = omega arith
  length-append (x ∷ xs) ys = omega (arith, length-append xs ys)

  -- Go's `len(xs) == 0`.
  abbrev pub is_empty : List A → Bool
  is_empty [] = true
  is_empty (x ∷ xs) = false

  unfoldable pub all_of : (A → Bool) → List A → Bool
  all_of p [] = true
  all_of p (x ∷ xs) = p x && all_of p xs

  unfoldable pub any_of : (A → Bool) → List A → Bool
  any_of p [] = false
  any_of p (x ∷ xs) = p x || any_of p xs

  -- The first elements of a list, and the others; Go's `xs[n:]` panics when there are fewer.
  unfoldable pub first : ℕ → List A → List A
  first zero xs = []
  first (suc n) [] = []
  first (suc n) (x ∷ xs) = x ∷ first n xs

  unfoldable pub rest : ℕ → List A → List A
  rest zero xs = xs
  rest (suc n) [] = []
  rest (suc n) (x ∷ xs) = rest n xs

  pub first-rest : (n : ℕ) (xs : List A) → first n xs ++ rest n xs ≡ xs
  unfolding first rest
  first-rest zero xs = refl
  first-rest (suc n) [] = refl
  first-rest (suc n) (x ∷ xs) = ap (λ (r : List A). x ∷ r) (first-rest n xs)

  pub length-rest : (n : ℕ) (x : A) (xs : List A) → n ≢ 0 → length (rest n (x ∷ xs)) ≤ length xs
  unfolding rest
  length-rest zero x xs h = absurd (h refl)
  length-rest (suc zero) x xs h = omega arith
  length-rest (suc (suc n)) x [] h = omega arith
  length-rest (suc (suc n)) x (y ∷ xs) h =
      omega (arith, length-rest (suc n) y xs (λ e. ground arith))

  pub length-first : (n : ℕ) (xs : List A) → n ≤ length xs → length (first n xs) ≡ n
  unfolding first
  length-first zero xs h = refl
  length-first (suc n) [] h = absurd (omega (arith, h))
  length-first (suc n) (x ∷ xs) h = omega (arith, length-first n xs (omega (arith, h)))
