-- ===== src/Prelude/Lists.antt =====
-- Lists measured by native numbers, and the scans that the code makes over its vectors.
use Prim.Native.Nat.{ℕ, zero, suc, ◌+◌, ◌-◌, ◌≤◌}
use mathlib.Core.Path.{◌≡◌, refl, sym, ap, subst, ◌∙◌}
use mathlib.Core.Logic.{◌⊎◌, inl, inr}
use mathlib.Core.Bool.{Bool, true, false}
use mathlib.Core.List.{List, [], ◌∷◌, ◌++◌}
use mathlib.Core.Option.{Option, none, some}
use native.Mathlib.Omega.{arith}
use zap_stream_core.Prelude.Tests.{if◌then◌else◌, Bool-cases, some_inj}

module _ {ℓ} {A : Type ℓ} where
  abbrev pub length : List A → ℕ
  length [] = 0
  length (x ∷ xs) = suc (length xs)

  abbrev pub take : ℕ → List A → List A
  take zero xs = []
  take (suc n) [] = []
  take (suc n) (x ∷ xs) = x ∷ take n xs

  abbrev pub drop : ℕ → List A → List A
  drop zero xs = xs
  drop (suc n) [] = []
  drop (suc n) (x ∷ xs) = drop n xs

  -- `Vec::retain`, and `filter` over an iterator.
  abbrev pub retain : (A → Bool) → List A → List A
  retain p [] = []
  retain p (x ∷ xs) = if p x then x ∷ retain p xs else retain p xs

  -- `Iterator::find`.
  abbrev pub find : (A → Bool) → List A → Option A
  find p [] = none
  find p (x ∷ xs) = if p x then some x else find p xs

  -- `Iterator::any`.
  abbrev pub any : (A → Bool) → List A → Bool
  any p [] = false
  any p (x ∷ xs) = if p x then true else any p xs

module _ {ℓ} {A : Type ℓ} where
  pub length-append : (xs ys : List A) → length (xs ++ ys) ≡ length xs + length ys
  length-append [] ys = omega arith
  length-append (x ∷ xs) ys = omega (arith, length-append xs ys)

  pub length-drop : (n : ℕ) (xs : List A) → length (drop n xs) ≡ length xs - n
  length-drop zero xs = omega arith
  length-drop (suc n) [] = omega arith
  length-drop (suc n) (x ∷ xs) = omega (arith, length-drop n xs)

  pub length-take : (n : ℕ) (xs : List A) → n ≤ length xs → length (take n xs) ≡ n
  length-take zero xs h = refl
  length-take (suc n) [] h = absurd (omega arith)
  length-take (suc n) (x ∷ xs) h = ap suc (length-take n xs (omega arith))

  take-append-drop : (n : ℕ) (xs : List A) → take n xs ++ drop n xs ≡ xs
  take-append-drop zero xs = refl
  take-append-drop (suc n) [] = refl
  take-append-drop (suc n) (x ∷ xs) = ap (◌∷◌ x) (take-append-drop n xs)

module _ {A : Type 0} where
  abbrev pub In : A → List A → Type 0
  In x [] = ⊥
  In x (y ∷ ys) = (x ≡ y) ⊎ In x ys

  pub In-++ : (x : A) (xs ys : List A) → In x xs ⊎ In x ys → In x (xs ++ ys)
  In-++ x [] ys (inl h) = absurd h
  In-++ x [] ys (inr h) = h
  In-++ x (y ∷ xs) ys (inl (inl e)) = inl e
  In-++ x (y ∷ xs) ys (inl (inr h)) = inr (In-++ x xs ys (inl h))
  In-++ x (y ∷ xs) ys (inr h) = inr (In-++ x xs ys (inr h))

  pub find-some : (p : A → Bool) (xs : List A) (x : A) → find p xs ≡ some x → (p x ≡ true) × In x xs
  find-some p [] x e = cc
  find-some p (y ∷ xs) x e = elim (Bool-cases (p y)) [
    | inl t ↦
        let same : y ≡ x = some_inj (ap (λ b. if b then some y else find p xs) (sym t) ∙ e) in
        (subst (λ z. p z ≡ true) same t, inl (sym same))
    | inr f ↦
        let (t, h) = find-some p xs x (ap (λ b. if b then some y else find p xs) (sym f) ∙ e) in
        (t, inr h)
  ]

  abbrev pub All : (A → Type 0) → List A → Type 0
  All P [] = Unit {0}
  All P (x ∷ xs) = P x × All P xs

  pub All-map : (P Q : A → Type 0) → ((x : A) → P x → Q x) → (xs : List A) → All P xs → All Q xs
  All-map P Q f [] h = tt
  All-map P Q f (x ∷ xs) h = (f x h.0, All-map P Q f xs h.1)

  pub All-++ : (P : A → Type 0) (xs ys : List A) → All P xs → All P ys → All P (xs ++ ys)
  All-++ P [] ys h g = g
  All-++ P (x ∷ xs) ys h g = (h.0, All-++ P xs ys h.1 g)

  pub In-All : (P : A → Type 0) (xs : List A) → All P xs → (x : A) → In x xs → P x
  In-All P [] h x i = absurd i
  In-All P (y ∷ xs) h x (inl e) = subst P (sym e) h.0
  In-All P (y ∷ xs) h x (inr i) = In-All P xs h.1 x i

  In-retain-at :
      (p : A → Bool) (x : A) (xs : List A) (b : Bool)
      → p x ≡ b
      → All (λ y. (p y ≡ true) × In y (x ∷ xs)) (retain p xs)
      → All (λ y. (p y ≡ true) × In y (x ∷ xs)) (if b then x ∷ retain p xs else retain p xs)
  In-retain-at p x xs true e rest = ((e, inl refl), rest)
  In-retain-at p x xs false e rest = rest

  pub In-retain : (p : A → Bool) (xs : List A) → All (λ x. (p x ≡ true) × In x xs) (retain p xs)
  In-retain p [] = tt
  In-retain p (x ∷ xs) = In-retain-at p x xs (p x) refl (
      All-map (λ y. (p y ≡ true) × In y xs) (λ y. (p y ≡ true) × In y (x ∷ xs))
        (λ y h. (h.0, inr h.1)) (retain p xs) (In-retain p xs))

abbrev pub Distinct : List ℕ → Type 0
Distinct [] = Unit {0}
Distinct (x ∷ xs) = (In x xs → ⊥) × Distinct xs
