-- ===== src/Prelude/Lists.antt =====
-- Lists measured by native numbers, with the Boolean quantifiers of the code's arrays.
use Prim.Native.Nat.{ℕ, suc, ◌+◌}
use mathlib.Core.Path.{◌≡◌, refl}
use mathlib.Core.Logic.{◌↔◌, ◌⊎◌, inl, inr}
use mathlib.Core.Bool.{Bool, true, false, ◌&&◌, ◌||◌}
use mathlib.Core.List.{List, [], ◌∷◌, ◌++◌}
use mathlib.Core.Option.{Option, none, some}
use native.Mathlib.Omega.{arith}
use hootifactory.Prelude.Tests.{Comparable, ◌==◌, if◌then◌else◌, Bool-cases}

module _ {ℓ} {A : Type ℓ} where
  abbrev pub length : List A → ℕ
  length [] = 0
  length (x ∷ xs) = suc (length xs)

  pub length-append : (xs ys : List A) → length (xs ++ ys) ≡ length xs + length ys
  length-append [] ys = omega arith
  length-append (x ∷ xs) ys = omega (arith, length-append xs ys)

  -- `xs.some(p)`
  abbrev pub any : (A → Bool) → List A → Bool
  any p [] = false
  any p (x ∷ xs) = p x || any p xs

  -- `xs.every(p)`
  abbrev pub all : (A → Bool) → List A → Bool
  all p [] = true
  all p (x ∷ xs) = p x && all p xs

  -- `xs.filter(p)`
  abbrev pub keep : (A → Bool) → List A → List A
  keep p [] = []
  keep p (x ∷ xs) = if p x then x ∷ keep p xs else keep p xs

  -- `xs.find(p)`
  abbrev pub find_first : (A → Bool) → List A → Option A
  find_first p [] = none
  find_first p (x ∷ xs) = if p x then some x else find_first p xs

module _ {ℓ} {A : Type ℓ} where
  pub List-cases : (xs : List A) → (xs ≡ []) ⊎ ((x : A) × (r : List A) × (xs ≡ x ∷ r))
  List-cases [] = inl refl
  List-cases (x ∷ r) = inr (x, r, refl)

module _ {ℓ} {A : Type ℓ} ⦃e : Comparable A⦄ where
  -- `xs.includes(a)`
  abbrev pub contains : List A → A → Bool
  contains [] a = false
  contains (x ∷ xs) a = x == a || contains xs a

  pub contains_here : (a : A) (xs : List A) → contains (a ∷ xs) a ≡ true
  contains_here a xs = ground (arith, (e.equals_iff a a).1 refl)

  pub contains_there : (a x : A) (xs : List A) → contains xs a ≡ true → contains (x ∷ xs) a ≡ true
  contains_there a x xs h = ground arith

module _ {ℓ κ} {A : Type ℓ} (P : A → Type κ) where
  abbrev pub All : List A → Type κ
  All [] = Unit
  All (x ∷ xs) = P x × All xs

-- Some element has the property, with the element kept.
abbrev pub Any {ℓ} : {A : Type ℓ} → (A → Type 0) → List A → Type 0
Any P [] = ⊥
Any P (x ∷ xs) = P x ⊎ Any P xs

pub any_iff {ℓ} :
    {A : Type ℓ} {P : A → Type 0} {p : A → Bool}
    → ((a : A) → (p a ≡ true) ↔ P a)
    → (xs : List A) → (any p xs ≡ true) ↔ Any P xs
any_iff h [] = ground arith
any_iff {P = P} {p = p} h (x ∷ xs) =
    let later : (any p xs ≡ true) ↔ Any P xs = any_iff h xs in
    (
      λ e. elim (Bool-cases (p x)) [
        | inl here ↦ inl ((h x).0 here)
        | inr other ↦ inr (later.0 (ground arith))
      ],
      λ a. elim a [
        | inl here ↦ ground (arith, (h x).1 here)
        | inr rest ↦ ground (arith, later.1 rest)
      ],
    )

module _ {ℓ} {A : Type ℓ} where
  pub Any-iff : {P Q : A → Type 0} → ((a : A) → P a ↔ Q a) → (xs : List A) → Any P xs ↔ Any Q xs
  Any-iff h [] = (λ i. i, λ i. i)
  Any-iff {P} {Q} h (x ∷ xs) =
      let rest : Any P xs ↔ Any Q xs = Any-iff h xs in
      (
        λ i. elim i [ inl here ↦ inl ((h x).0 here) | inr later ↦ inr (rest.0 later) ],
        λ i. elim i [ inl here ↦ inl ((h x).1 here) | inr later ↦ inr (rest.1 later) ],
      )

  pub Any-append : (P : A → Type 0) (xs ys : List A) → Any P (xs ++ ys) ↔ (Any P xs ⊎ Any P ys)
  Any-append P [] ys = (λ i. inr i, λ i. elim i [ inl no' ↦ absurd no' | inr there ↦ there ])
  Any-append P (x ∷ xs) ys =
      let rest : Any P (xs ++ ys) ↔ (Any P xs ⊎ Any P ys) = Any-append P xs ys in
      (
        λ i. elim i [
          | inl here ↦ inl (inl here)
          | inr later ↦ elim (rest.0 later) [ inl left ↦ inl (inr left) | inr right ↦ inr right ]
        ],
        λ i. elim i [
          | inl left ↦ elim left [ inl here ↦ inl here | inr later ↦ inr (rest.1 (inl later)) ]
          | inr right ↦ inr (rest.1 (inr right))
        ],
      )

  pub Any-or : (P Q : A → Type 0) (xs : List A) → Any (λ x. P x ⊎ Q x) xs ↔ (Any P xs ⊎ Any Q xs)
  Any-or P Q [] = (λ i. absurd i, λ i. elim i [ inl no' ↦ no' | inr no' ↦ no' ])
  Any-or P Q (x ∷ xs) =
      let rest : Any (λ x. P x ⊎ Q x) xs ↔ (Any P xs ⊎ Any Q xs) = Any-or P Q xs in
      (
        λ i. elim i [
          | inl here ↦ elim here [ inl l ↦ inl (inl l) | inr r ↦ inr (inl r) ]
          | inr later ↦ elim (rest.0 later) [ inl l ↦ inl (inr l) | inr r ↦ inr (inr r) ]
        ],
        λ i. elim i [
          | inl left ↦ elim left [ inl here ↦ inl (inl here) | inr l ↦ inr (rest.1 (inl l)) ]
          | inr right ↦ elim right [ inl here ↦ inl (inr here) | inr r ↦ inr (rest.1 (inr r)) ]
        ],
      )

  pub Any-keep :
      (P : A → Type 0) (p : A → Bool) (xs : List A)
      → Any P (keep p xs) ↔ Any (λ x. (p x ≡ true) × P x) xs
  Any-keep P p [] = (λ i. i, λ i. i)
  Any-keep P p (x ∷ xs) =
      let rest : Any P (keep p xs) ↔ Any (λ x. (p x ≡ true) × P x) xs = Any-keep P p xs in
      elim (Bool-cases (p x)) [
        | inl y ↦ rw y (
          λ i. elim i [ inl here ↦ inl (refl, here) | inr later ↦ inr (rest.0 later) ],
          λ i. elim i [ inl here ↦ inl here.1 | inr later ↦ inr (rest.1 later) ],
        )
        | inr n ↦ rw n (
          λ i. inr (rest.0 i),
          λ i. elim i [
            | inl here ↦ absurd (let f : false ≡ true = here.0 in cc f)
            | inr later ↦ rest.1 later
          ],
        )
      ]

module _ {A : Type 0} ⦃e : Comparable A⦄ where
  pub contains_iff : (xs : List A) (a : A) → (contains xs a ≡ true) ↔ Any (λ x. x ≡ a) xs
  contains_iff [] a = ground arith
  contains_iff (x ∷ xs) a =
      let rest : (contains xs a ≡ true) ↔ Any (λ y. y ≡ a) xs = contains_iff xs a in
      (
        λ h. elim (Bool-cases (x == a)) [
          | inl here ↦ inl ((e.equals_iff x a).0 here)
          | inr other ↦ inr (rest.0 (ground arith))
        ],
        λ i. elim i [
          | inl here ↦ ground (arith, (e.equals_iff x a).1 here)
          | inr later ↦ ground (arith, rest.1 later)
        ],
      )
