-- ===== src/Endpoint/Order.antt =====
-- The order in which capabilities are configured, `Ord for VariantType` of
-- crates/core/src/endpoint.rs, is the total order that a sort relies on.
use Prim.Native.Nat.{compare, Ordering}
use zap_stream_core.Prelude.{ℕ, ◌<◌, ◌↔◌, ◌≡◌, refl, sym, ap, subst, ◌∙◌, ◌⊎◌, inl, inr, arith}
use zap_stream_core.Endpoint.{VariantType, source_variant, variant, dvr, then_cmp, cmp}

-- As pairs: who comes first, by the kind, then the height, then the bitrate.
abbrev pub Before : VariantType → VariantType → Type 0
Before source_variant source_variant = ⊥
Before source_variant (variant h b) = Unit {0}
Before source_variant (dvr h) = Unit {0}
Before (variant h b) source_variant = ⊥
Before (variant h1 b1) (variant h2 b2) = (h2 < h1) ⊎ ((h1 ≡ h2) × (b2 < b1))
Before (variant h1 b1) (dvr h2) = Unit {0}
Before (dvr h) source_variant = ⊥
Before (dvr h) (variant h2 b) = ⊥
Before (dvr h1) (dvr h2) = h2 < h1

less : (a b : ℕ) → (compare a b ≡ Ordering.lt) → a < b
less a b e = ground (arith, e)

same : (a b : ℕ) → (compare a b ≡ Ordering.eq) → a ≡ b
same a b e = ground (arith, e)

more : (a b : ℕ) → (compare a b ≡ Ordering.gt) → b < a
more a b e = ground (arith, e)

variant_inj : {h1 b1 h2 b2 : ℕ} → variant h1 b1 ≡ variant h2 b2 → (h1 ≡ h2) × (b1 ≡ b2)
variant_inj e = (cc, cc)

dvr_inj : {h1 h2 : ℕ} → dvr h1 ≡ dvr h2 → h1 ≡ h2
dvr_inj e = cc

-- What the three results of a comparison say.
abbrev Says : VariantType → VariantType → Ordering → Type 0
Says a b Ordering.lt = Before a b
Says a b Ordering.eq = a ≡ b
Says a b Ordering.gt = Before b a

cmp-Says : (a b : VariantType) → Says a b (cmp a b)
unfolding cmp
cmp-Says source_variant source_variant = refl
cmp-Says source_variant (variant h b) = tt
cmp-Says source_variant (dvr h) = tt
cmp-Says (variant h b) source_variant = tt
cmp-Says (variant h1 b1) (variant h2 b2) = go (compare h2 h1) (compare b2 b1) refl refl
  where
    go :
        (o p : Ordering)
        → compare h2 h1 ≡ o
        → compare b2 b1 ≡ p
        → Says (variant h1 b1) (variant h2 b2) (then_cmp o p)
    go Ordering.lt p x y = inl (less h2 h1 x)
    go Ordering.gt p x y = inl (more h2 h1 x)
    go Ordering.eq Ordering.lt x y = inr (sym (same h2 h1 x), less b2 b1 y)
    go Ordering.eq Ordering.eq x y =
        ap (λ h. variant h b1) (sym (same h2 h1 x)) ∙ ap (λ b. variant h2 b) (sym (same b2 b1 y))
    go Ordering.eq Ordering.gt x y = inr (same h2 h1 x, more b2 b1 y)
cmp-Says (variant h1 b1) (dvr h2) = tt
cmp-Says (dvr h) source_variant = tt
cmp-Says (dvr h) (variant h2 b) = tt
cmp-Says (dvr h1) (dvr h2) = go (compare h2 h1) refl
  where
    go : (o : Ordering) → compare h2 h1 ≡ o → Says (dvr h1) (dvr h2) o
    go Ordering.lt x = less h2 h1 x
    go Ordering.eq x = ap dvr (sym (same h2 h1 x))
    go Ordering.gt x = more h2 h1 x

not_Before_self : (a : VariantType) → Before a a → ⊥
not_Before_self source_variant h = absurd h
not_Before_self (variant h b) (inl e) = omega (arith, e)
not_Before_self (variant h b) (inr (e, k)) = omega (arith, k)
not_Before_self (dvr h) e = omega (arith, e)

-- The order is transitive.
pub Before_trans : (a b c : VariantType) → Before a b → Before b c → Before a c
Before_trans source_variant b (variant h k) x y = tt
Before_trans source_variant b (dvr h) x y = tt
Before_trans source_variant source_variant source_variant x y = absurd x
Before_trans source_variant (variant h k) source_variant x y = absurd y
Before_trans source_variant (dvr h) source_variant x y = absurd y
Before_trans (variant h b) source_variant c x y = absurd x
Before_trans (variant h b) (variant i k) source_variant x y = absurd y
Before_trans (variant h b) (variant i k) (variant j l) x y = ground (arith, x, y)
Before_trans (variant h b) (variant i k) (dvr j) x y = tt
Before_trans (variant h b) (dvr i) source_variant x y = absurd y
Before_trans (variant h b) (dvr i) (variant j l) x y = absurd y
Before_trans (variant h b) (dvr i) (dvr j) x y = tt
Before_trans (dvr h) source_variant c x y = absurd x
Before_trans (dvr h) (variant i k) c x y = absurd x
Before_trans (dvr h) (dvr i) source_variant x y = absurd y
Before_trans (dvr h) (dvr i) (variant j l) x y = absurd y
Before_trans (dvr h) (dvr i) (dvr j) x y = omega (arith, x, y)

before_not_after : (a b : VariantType) → Before a b → Before b a → ⊥
before_not_after a b x y = not_Before_self a (Before_trans a b a x y)

-- The order puts sources first, then variants, then recordings, of each the higher first, and of variants
-- of one height the one of more bits; it is total, and finds equal only what is.
pub cmp-Before :
    (a b : VariantType)
    → ((cmp a b ≡ Ordering.lt) ↔ Before a b)
      × ((cmp a b ≡ Ordering.eq) ↔ (a ≡ b))
      × ((cmp a b ≡ Ordering.gt) ↔ Before b a)
cmp-Before a b = (
  (λ e. subst (Says a b) e (cmp-Says a b), λ x. is_less (cmp a b) (cmp-Says a b) x),
  (λ e. subst (Says a b) e (cmp-Says a b), λ x. is_same (cmp a b) (cmp-Says a b) x),
  (λ e. subst (Says a b) e (cmp-Says a b), λ x. is_more (cmp a b) (cmp-Says a b) x),
)
  where
    not_same : a ≡ b → Before a b → ⊥
    not_same e x = not_Before_self b (subst (λ v. Before v b) e x)

    not_same_after : a ≡ b → Before b a → ⊥
    not_same_after e x = not_Before_self b (subst (λ v. Before b v) e x)

    is_less : (o : Ordering) → Says a b o → Before a b → o ≡ Ordering.lt
    is_less Ordering.lt s x = refl
    is_less Ordering.eq s x = absurd (not_same s x)
    is_less Ordering.gt s x = absurd (before_not_after a b x s)

    is_same : (o : Ordering) → Says a b o → a ≡ b → o ≡ Ordering.eq
    is_same Ordering.lt s x = absurd (not_same x s)
    is_same Ordering.eq s x = refl
    is_same Ordering.gt s x = absurd (not_same_after x s)

    is_more : (o : Ordering) → Says a b o → Before b a → o ≡ Ordering.gt
    is_more Ordering.lt s x = absurd (before_not_after a b s x)
    is_more Ordering.eq s x = absurd (not_same_after s x)
    is_more Ordering.gt s x = refl
