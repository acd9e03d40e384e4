-- ===== src/Base/Lists.antt =====
-- Lists under Boolean tests, measured by native numbers.
use Prim.Native.Nat.{ℕ, suc, ◌+◌, ◌≤◌}
use mathlib.Core.Bool.{Bool, true, false, ◌||◌}
use mathlib.Core.List.{List, [], ◌∷◌, ◌++◌}
use mathlib.Core.Logic.{◌⊎◌, inl, inr}
use mathlib.Core.Path.{◌≡◌, refl, subst}
use native.Mathlib.Omega.{arith}
use dev_ops_agent_swarm.Base.Tests.{if◌then◌else◌, leb, Bool-cases}

module _ {ℓ} {A : Type ℓ} where
  abbrev pub length : List A → ℕ
  length [] = 0
  length (x ∷ xs) = suc (length xs)

  -- `[x for x in xs if p(x)]`
  abbrev pub filter : (A → Bool) → List A → List A
  filter p [] = []
  filter p (x ∷ xs) = let rest = filter p xs in if p x then x ∷ rest else rest

  -- `any(p(x) for x in xs)`
  abbrev pub any : (A → Bool) → List A → Bool
  any p [] = false
  any p (x ∷ xs) = p x || any p xs

  -- `xs[-n:]`
  unfoldable pub last_of : ℕ → List A → List A
  last_of n [] = []
  last_of n (x ∷ xs) = let rest = last_of n xs in if leb (length xs + 1) n then x ∷ xs else rest

  -- `xs` is not empty
  abbrev pub is_cons : List A → Bool
  is_cons [] = false
  is_cons (_ ∷ _) = true

module _ {ℓ} {A : Type ℓ} where
  pub length-append : (xs ys : List A) → length (xs ++ ys) ≡ length xs + length ys
  length-append [] ys = omega arith
  length-append (x ∷ xs) ys = omega (arith, length-append xs ys)

  pub length-filter-le : (p : A → Bool) (xs : List A) → length (filter p xs) ≤ length xs
  length-filter-le p [] = omega arith
  length-filter-le p (x ∷ xs) = ground (arith, length-filter-le p xs)

  pub filter-append :
      (p : A → Bool) (xs ys : List A) → filter p (xs ++ ys) ≡ filter p xs ++ filter p ys
  filter-append p [] ys = refl
  filter-append p (x ∷ xs) ys = ground (arith, filter-append p xs ys)

  pub filter-filter : (p : A → Bool) (xs : List A) → filter p (filter p xs) ≡ filter p xs
  filter-filter p [] = refl
  filter-filter p (x ∷ xs) = ground (arith, filter-filter p xs)

-- An element stands in a list.
abbrev pub In : {A : Type 0} → A → List A → Type 0
In x [] = ⊥
In x (y ∷ ys) = (x ≡ y) ⊎ In x ys

-- A predicate that holds at each element.
abbrev pub All {ℓ κ} : {A : Type ℓ} → (A → Type κ) → List A → Type κ
All P [] = Unit
All P (x ∷ xs) = P x × All P xs

pub All-append {ℓ κ} :
    {A : Type ℓ} (P : A → Type κ) (xs ys : List A) → All P xs → All P ys → All P (xs ++ ys)
All-append P [] ys h k = k
All-append P (x ∷ xs) ys h k = (h.0, All-append P xs ys h.1 k)

-- What a filter keeps stands in the list.
pub filter-In : {A : Type 0} (p : A → Bool) (xs : List A) → All (λ x. In x xs) (filter p xs)
filter-In p xs = kept xs (λ x here. here)
  where
    kept : (ys : List _) → ((y : _) → In y ys → In y xs) → All (λ x. In x xs) (filter p ys)
    kept [] sub = tt
    kept (y ∷ ys) sub = elim (Bool-cases (p y)) [
      | inl keep ↦ rw keep (sub y (inl refl), kept ys (λ z there. sub z (inr there)))
      | inr drop ↦ rw drop (kept ys (λ z there. sub z (inr there)))
    ]

pub In-filter :
    {A : Type 0} (p : A → Bool) (x : A) (xs : List A) → In x xs → p x ≡ true → In x (filter p xs)
In-filter p x [] nowhere kept = elim nowhere [ ]
In-filter p x (y ∷ ys) (inl here) kept =
    subst (λ z. In x (if p z then z ∷ filter p ys else filter p ys)) here (rw kept (inl refl))
In-filter p x (y ∷ ys) (inr there) kept = elim (Bool-cases (p y)) [
  | inl kept_too ↦ rw kept_too (inr (In-filter p x ys there kept))
  | inr dropped ↦ rw dropped (In-filter p x ys there kept)
]
