-- ===== src/Prelude/Lists.antt =====
-- Lists measured by native numbers, tests and predicates over all items of a list.
use Prim.Native.Nat.{ℕ, zero, suc, ◌+◌, ◌≤◌}
use mathlib.Core.Path.{◌≡◌}
use mathlib.Core.List.{List, [], ◌∷◌, ◌++◌, map}
use native.Mathlib.Omega.{arith}

module _ {ℓ} {A : Type ℓ} where
  abbrev pub length : List A → ℕ
  length [] = 0
  length (x ∷ xs) = suc (length xs)

  abbrev pub take : ℕ → List A → List A
  take zero xs = []
  take (suc n) [] = []
  take (suc n) (x ∷ xs) = x ∷ take n xs

  pub length-append : (xs ys : List A) → length (xs ++ ys) ≡ length xs + length ys
  length-append [] ys = omega arith
  length-append (x ∷ xs) ys = omega (arith, length-append xs ys)

  pub length-take-le : (n : ℕ) (xs : List A) → length (take n xs) ≤ n
  length-take-le zero xs = omega arith
  length-take-le (suc n) [] = omega arith
  length-take-le (suc n) (x ∷ xs) = omega (arith, length-take-le n xs)

-- A predicate by recursion computes to tuples.
abbrev pub All {ℓ κ} : {A : Type ℓ} → (A → Type κ) → List A → Type κ
All P [] = Unit
All P (x ∷ xs) = P x × All P xs

module _ {ℓ κ} {A : Type ℓ} (P : A → Type κ) where
  pub All-append : (xs ys : List A) → All P xs → All P ys → All P (xs ++ ys)
  All-append [] ys hx hy = hy
  All-append (x ∷ xs) ys hx hy = (hx.0, All-append xs ys hx.1 hy)

  pub All-take : (n : ℕ) (xs : List A) → All P xs → All P (take n xs)
  All-take zero xs h = tt
  All-take (suc n) [] h = tt
  All-take (suc n) (x ∷ xs) h = (h.0, All-take n xs h.1)

  pub All-always : ((x : A) → P x) → (xs : List A) → All P xs
  All-always f [] = tt
  All-always f (x ∷ xs) = (f x, All-always f xs)

pub All-map {ℓ κ μ} :
    {A : Type ℓ} {B : Type κ} (P : B → Type μ) (f : A → B) (xs : List A)
    → All (λ x. P (f x)) xs
    → All P (map f xs)
All-map P f [] h = tt
All-map P f (x ∷ xs) h = (h.0, All-map P f xs h.1)

pub All-imp {ℓ κ μ} :
    {A : Type ℓ} (P : A → Type κ) (Q : A → Type μ)
    → ((x : A) → P x → Q x)
    → (xs : List A) → All P xs
    → All Q xs
All-imp P Q f [] h = tt
All-imp P Q f (x ∷ xs) h = (f x h.0, All-imp P Q f xs h.1)

pub All₂_imp {ℓ κ μ ν} :
    {A : Type ℓ} (P : A → Type κ) (P' : A → Type μ) (Q : A → Type ν)
    → ((x : A) → P x → P' x → Q x)
    → (xs : List A) → All P xs
    → All P' xs
    → All Q xs
All₂_imp P P' Q f [] h k = tt
All₂_imp P P' Q f (x ∷ xs) h k = (f x h.0 k.0, All₂_imp P P' Q f xs h.1 k.1)

module _ {ℓ κ μ} {A : Type ℓ} {B : Type κ} (P : A → B → Type μ) where
  All-zip :
      (x : A) (xs : List A) (ys : List B)
      → All (P x) ys
      → All (λ y. All (λ a. P a y) xs) ys
      → All (λ y. All (λ a. P a y) (x ∷ xs)) ys
  All-zip x xs [] h k = tt
  All-zip x xs (y ∷ ys) h k = ((h.0, k.0), All-zip x xs ys h.1 k.1)

  -- A relation between all items of two lists, read the other way.
  pub All-transpose :
      (xs : List A) (ys : List B) → All (λ x. All (P x) ys) xs → All (λ y. All (λ x. P x y) xs) ys
  All-transpose [] ys h = All-always (λ y. All (λ x. P x y) []) (λ y. tt) ys
  All-transpose (x ∷ xs) ys h = All-zip x xs ys h.0 (All-transpose xs ys h.1)
