-- ===== src/Prelude/Lists.antt =====
-- Lists measured by native numbers, and membership and universal predicates by recursion, which
-- compute to sums and tuples that the tactics read.
use Prim.Native.Nat.{ℕ, suc}
use mathlib.Core.Path.{◌≡◌, refl, ap}
use mathlib.Core.Logic.{◌⊎◌, inl, inr}
use mathlib.Core.Bool.{Bool, true, false, ◌&&◌, ◌||◌}
use mathlib.Core.Option.{Option, none, some}
use mathlib.Core.List.{List, [], ◌∷◌, ◌++◌, map}
use native.Mathlib.Omega.{arith}

module _ {ℓ} {A : Type ℓ} where
  abbrev pub length : List A → ℕ
  length [] = 0
  length (x ∷ xs) = suc (length xs)

  -- `Array.prototype.every`
  abbrev pub all : (A → Bool) → List A → Bool
  all p [] = true
  all p (x ∷ xs) = p x && all p xs

  -- `Array.prototype.some`
  abbrev pub any : (A → Bool) → List A → Bool
  any p [] = false
  any p (x ∷ xs) = p x || any p xs

  -- `Array.prototype.find`
  abbrev pub find : (A → Bool) → List A → Option A
  find p [] = none
  find p (x ∷ xs) = elim (p x) [ true ↦ some x | false ↦ find p xs ]

  -- `Array.prototype.filter`
  abbrev pub keep : (A → Bool) → List A → List A
  keep p [] = []
  keep p (x ∷ xs) = elim (p x) [ true ↦ x ∷ keep p xs | false ↦ keep p xs ]

  abbrev pub All {κ} : (A → Type κ) → List A → Type κ
  All P [] = Unit
  All P (x ∷ xs) = P x × All P xs

module _ {A : Type 0} where
  abbrev pub In : A → List A → Type 0
  In a [] = ⊥
  In a (x ∷ xs) = (a ≡ x) ⊎ In a xs

module _ {A : Type 0} where
  pub In-map : {B : Type 0} (f : A → B) (xs : List A) (a : A) → In a xs → In (f a) (map f xs)
  In-map f [] a i = absurd i
  In-map f (x ∷ xs) a (inl e) = inl (ap f e)
  In-map f (x ∷ xs) a (inr i) = inr (In-map f xs a i)

  pub map-In :
      {B : Type 0} (f : A → B) (xs : List A) (b : B)
      → In b (map f xs)
      → (a : A) × In a xs × (b ≡ f a)
  map-In f [] b i = absurd i
  map-In f (x ∷ xs) b (inl e) = (x, inl refl, e)
  map-In f (x ∷ xs) b (inr i) = let (a, j, e) = map-In f xs b i in (a, inr j, e)

  pub find-In : (p : A → Bool) (xs : List A) (a : A) → find p xs ≡ some a → In a xs × (p a ≡ true)
  find-In p [] a h = cc
  find-In p (x ∷ xs) a h = ground (arith, find-In p xs a)

  pub find-none : (p : A → Bool) (xs : List A) (a : A) → find p xs ≡ none → In a xs → p a ≡ false
  find-none p [] a h i = absurd i
  find-none p (x ∷ xs) a h (inl e) = ground arith
  find-none p (x ∷ xs) a h (inr i) = ground (arith, find-none p xs a)

  pub keep-In : (p : A → Bool) (xs : List A) (a : A) → In a (keep p xs) → In a xs × (p a ≡ true)
  keep-In p [] a i = absurd i
  keep-In p (x ∷ xs) a i = ground (arith, keep-In p xs a)

  pub In-keep : (p : A → Bool) (xs : List A) (a : A) → In a xs → p a ≡ true → In a (keep p xs)
  In-keep p [] a i h = absurd i
  In-keep p (x ∷ xs) a i h = ground (arith, In-keep p xs a)

  pub find-snoc :
      (p : A → Bool) (xs : List A) (a : A)
      → find p xs ≡ none
      → p a ≡ true
      → find p (xs ++ (a ∷ [])) ≡ some a
  find-snoc p [] a h t = rw (t, find) refl
  find-snoc p (x ∷ xs) a h t = ground (arith, find-snoc p xs a)

  pub find-append :
      (p : A → Bool) (xs ys : List A) (a : A) → find p xs ≡ some a → find p (xs ++ ys) ≡ some a
  find-append p [] ys a h = cc
  find-append p (x ∷ xs) ys a h = ground (arith, find-append p xs ys a)

  pub append-In : (xs ys : List A) (a : A) → In a (xs ++ ys) → In a xs ⊎ In a ys
  append-In [] ys a i = inr i
  append-In (x ∷ xs) ys a (inl e) = inl (inl e)
  append-In (x ∷ xs) ys a (inr i) = elim (append-In xs ys a i) [
    | inl j ↦ inl (inr j)
    | inr k ↦ inr k
  ]
