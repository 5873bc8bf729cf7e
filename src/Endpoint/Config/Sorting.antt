-- ===== src/Endpoint/Config/Sorting.antt =====
-- The order in which crates/core/src/endpoint.rs goes through the capabilities.
use Prim.Native.Nat.{Ordering}
use mathlib.Core.List.{Permᴰ}
use zap_stream_core.Prelude.{
  ◌≡◌, refl, sym, ap, subst, ◌∙◌, ◌⊎◌, inl, inr, List, [], ◌∷◌, In, All, All-map,
}
use zap_stream_core.Endpoint.{VariantType, cmp}
use zap_stream_core.Endpoint.Order.{Before_trans, cmp-Before}
use zap_stream_core.Endpoint.Config.{insert_sorted, sorted}

insert_sorted-All :
    (P : VariantType → Type 0) (c : VariantType) (ds : List VariantType)
    → P c
    → All P ds
    → All P (insert_sorted c ds)
insert_sorted-All P c [] p h = (p, tt)
insert_sorted-All P c (d ∷ ds) p h = go (cmp d c) (insert_sorted-All P c ds p h.1)
  where
    go :
        (o : Ordering)
        → All P (insert_sorted c ds)
        → All P (elim o [ Ordering.lt ↦ d ∷ insert_sorted c ds | _ ↦ c ∷ d ∷ ds ])
    go Ordering.lt rest = (h.0, rest)
    go Ordering.eq rest = (p, h)
    go Ordering.gt rest = (p, h)

pub sorted-In : (cs : List VariantType) → All (λ c. In c cs) (sorted cs)
unfolding sorted
sorted-In [] = tt
sorted-In (c ∷ cs) =
    insert_sorted-All (λ d. In d (c ∷ cs)) c (sorted cs) (inl refl)
      (All-map (λ d. In d cs) (λ d. In d (c ∷ cs)) (λ d i. inr i) (sorted cs) (sorted-In cs))

insert-after :
    (c d : VariantType) (ds : List VariantType)
    → cmp d c ≡ Ordering.lt
    → insert_sorted c (d ∷ ds) ≡ d ∷ insert_sorted c ds
insert-after c d ds e = ap (λ o. elim o [ Ordering.lt ↦ d ∷ insert_sorted c ds | _ ↦ c ∷ d ∷ ds ]) e

insert-before :
    (c d : VariantType) (ds : List VariantType)
    → (cmp d c ≡ Ordering.lt → ⊥)
    → insert_sorted c (d ∷ ds) ≡ c ∷ d ∷ ds
insert-before c d ds = go (cmp d c)
  where
    go :
        (o : Ordering)
        → (o ≡ Ordering.lt → ⊥)
        → elim o [ Ordering.lt ↦ d ∷ insert_sorted c ds | _ ↦ c ∷ d ∷ ds ] ≡ c ∷ d ∷ ds
    go Ordering.lt not_lt = absurd (not_lt refl)
    go Ordering.eq not_lt = refl
    go Ordering.gt not_lt = refl

cmp-cases : (a b : VariantType) → (cmp a b ≡ Ordering.lt) ⊎ (cmp a b ≡ Ordering.lt → ⊥)
cmp-cases a b = go (cmp a b)
  where
    go : (o : Ordering) → (o ≡ Ordering.lt) ⊎ (o ≡ Ordering.lt → ⊥)
    go Ordering.lt = inl refl
    go Ordering.eq = inr (λ e. cc)
    go Ordering.gt = inr (λ e. cc)

-- Neither before the other: the same.
not_lt-eq : (a b : VariantType) → (cmp a b ≡ Ordering.lt → ⊥) → (cmp b a ≡ Ordering.lt → ⊥) → a ≡ b
not_lt-eq a b n m = go (cmp a b) refl
  where
    go : (o : Ordering) → cmp a b ≡ o → a ≡ b
    go Ordering.lt e = absurd (n e)
    go Ordering.eq e = (cmp-Before a b).1.0 e
    go Ordering.gt e = absurd (m ((cmp-Before b a).0.1 ((cmp-Before a b).2.0 e)))

distinct : (o : Ordering) → o ≡ Ordering.gt → o ≡ Ordering.lt → ⊥
distinct o g l = cc

not_lt-both : (a b : VariantType) → cmp a b ≡ Ordering.lt → cmp b a ≡ Ordering.lt → ⊥
not_lt-both a b e f = distinct (cmp b a) ((cmp-Before b a).2.1 ((cmp-Before a b).0.0 e)) f

-- What goes before the head goes before what is behind it.
ahead :
    (d x y : VariantType)
    → cmp d x ≡ Ordering.lt
    → (cmp d y ≡ Ordering.lt → ⊥)
    → cmp y x ≡ Ordering.lt
ahead d x y e n = elim (cmp-cases y d) [
  | inl f ↦
      (cmp-Before y x).0.1 (Before_trans y d x ((cmp-Before y d).0.0 f) ((cmp-Before d x).0.0 e))
  | inr m ↦ subst (λ z. cmp z x ≡ Ordering.lt) (not_lt-eq d y n m) e
]

pass :
    (d x y : VariantType) (ds : List VariantType)
    → cmp d x ≡ Ordering.lt
    → (cmp d y ≡ Ordering.lt → ⊥)
    → insert_sorted x (insert_sorted y (d ∷ ds)) ≡ insert_sorted y (insert_sorted x (d ∷ ds))
pass d x y ds e n =
    ap (insert_sorted x) (insert-before y d ds n)
    ∙ insert-after x y (d ∷ ds) (ahead d x y e n)
    ∙ ap (◌∷◌ y) (insert-after x d ds e)
    ∙ sym (ap (insert_sorted y) (insert-after x d ds e) ∙ insert-before y d (insert_sorted x ds) n)

-- Two whose places are next to each other.
adjacent :
    (x y : VariantType) (ds : List VariantType)
    → insert_sorted x ds ≡ x ∷ ds
    → insert_sorted y ds ≡ y ∷ ds
    → insert_sorted x (y ∷ ds) ≡ insert_sorted y (x ∷ ds)
adjacent x y ds ex ey = elim (cmp-cases y x) [
  | inl e ↦ insert-after x y ds e ∙ ap (◌∷◌ y) ex ∙ sym (insert-before y x ds (not_lt-both y x e))
  | inr n ↦ elim (cmp-cases x y) [
    | inl f ↦ insert-before x y ds n ∙ sym (insert-after y x ds f ∙ ap (◌∷◌ x) ey)
    | inr m ↦
        let same : x ≡ y = not_lt-eq x y m n in
        ap (λ z. insert_sorted z (y ∷ ds)) same ∙ ap (λ z. insert_sorted y (z ∷ ds)) (sym same)
  ]
]

insert_sorted_comm :
    (x y : VariantType) (ds : List VariantType)
    → insert_sorted x (insert_sorted y ds) ≡ insert_sorted y (insert_sorted x ds)
insert_sorted_comm x y [] = adjacent x y [] refl refl
insert_sorted_comm x y (d ∷ ds) = elim (cmp-cases d x) [
  | inl e ↦ elim (cmp-cases d y) [
    | inl f ↦
        ap (insert_sorted x) (insert-after y d ds f)
        ∙ insert-after x d (insert_sorted y ds) e
        ∙ ap (◌∷◌ d) (insert_sorted_comm x y ds)
        ∙ sym
            (ap (insert_sorted y) (insert-after x d ds e) ∙ insert-after y d (insert_sorted x ds) f)
    | inr n ↦ pass d x y ds e n
  ]
  | inr n ↦ elim (cmp-cases d y) [
    | inl f ↦ sym (pass d y x ds f n)
    | inr m ↦
        ap (insert_sorted x) (insert-before y d ds m)
        ∙ adjacent x y (d ∷ ds) (insert-before x d ds n) (insert-before y d ds m)
        ∙ sym (ap (insert_sorted y) (insert-before x d ds n))
  ]
]

-- The order in which the capabilities are listed does not matter.
pub sorted-Permᴰ : (cs ds : List VariantType) → Permᴰ cs ds → sorted cs ≡ sorted ds
unfolding sorted
sorted-Permᴰ cs ds Permᴰ.nil = refl
sorted-Permᴰ cs ds (Permᴰ.cons {a = a} {b = b} {l₁ = l} {l₂ = m} e p) =
    ap (λ z. insert_sorted z (sorted l)) e ∙ ap (insert_sorted b) (sorted-Permᴰ l m p)
sorted-Permᴰ cs ds (Permᴰ.swap {a = a} {b = b} {a' = c} {l = l} e f) =
    insert_sorted_comm a b (sorted l)
    ∙ ap (λ z. insert_sorted z (insert_sorted a (sorted l))) f
    ∙ ap (λ z. insert_sorted c (insert_sorted z (sorted l))) e
sorted-Permᴰ cs ds (Permᴰ.trans {l₂ = l} p q) = sorted-Permᴰ cs l p ∙ sorted-Permᴰ l ds q
