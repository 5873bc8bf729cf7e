-- ===== src/Endpoint/Names.antt =====
-- Capabilities are read back as they are printed, crates/core/src/endpoint.rs.
use zap_stream_core.Prelude.{
  both, ℕ, ◌+◌, ◌<◌, ◌≡◌, ◌⊎◌, refl, ap, ◌∙◌, inr, Bool, true, false, not, ◌&&◌, none, some, List,
  [], ◌∷◌, ◌++◌, ◌==◌, if◌then◌else◌, ltb, leb, arith,
}
use zap_stream_core.Prelude.Text.{
  same_text, Text, codes, decimal, parse_u64, u64_mod, parse_u64-decimal, all_chars, all_chars-++,
  all_chars-decimal,
}
use zap_stream_core.Endpoint.{
  VariantType, source_variant, variant, dvr, colon, comma, to_string, split, onto_first, u16_mod,
  below, parse_u16, variant_of, dvr_of, variant_fields, dvr_fields, of_fields, from_str,
  to_ascii_lowercase, keep_some, parse_each, parse_capabilities,
}

abbrev is_other : ℕ → ℕ → Bool
is_other sep c = not (c == sep)

abbrev is_lower : ℕ → Bool
is_lower c = not (leb 65 c && leb c 90)

abbrev is_digit : ℕ → Bool
is_digit c = leb 48 c && leb c 57

not_is_true : (b : Bool) → not b ≡ true → b ≡ false
not_is_true true e = cc
not_is_true false e = refl

itself : (n : ℕ) → (n == n) ≡ true
itself n = ground arith

-- What stands before the separator is the first field.
split-front :
    (sep : ℕ) (s rest : Text)
    → all_chars (is_other sep) s ≡ true
    → split sep (s ++ sep ∷ rest) ≡ s ∷ split sep rest
unfolding split
split-front sep [] rest h =
    ap (λ b. if b then [] ∷ split sep rest else onto_first sep (split sep rest)) (itself sep)
split-front sep (c ∷ s) rest h =
    let (other, others) = both (is_other sep c) (all_chars (is_other sep) s) h in
    ap
      (λ b.
        if b then [] ∷ split sep (s ++ sep ∷ rest) else onto_first c (split sep (s ++ sep ∷ rest)))
      (not_is_true (c == sep) other)
    ∙ ap (onto_first c) (split-front sep s rest others)

split-alone : (sep : ℕ) (s : Text) → all_chars (is_other sep) s ≡ true → split sep s ≡ s ∷ []
unfolding split
split-alone sep [] h = refl
split-alone sep (c ∷ s) h =
    let (other, others) = both (is_other sep c) (all_chars (is_other sep) s) h in
    ap (λ b. if b then [] ∷ split sep s else onto_first c (split sep s))
      (not_is_true (c == sep) other)
    ∙ ap (onto_first c) (split-alone sep s others)

decimal_other : (sep n : ℕ) → (sep < 48) ⊎ (57 < sep) → all_chars (is_other sep) (decimal n) ≡ true
decimal_other sep n h = all_chars-decimal (is_other sep) n (λ d small. ground (arith, h, small))

parse_u16-decimal : (h : ℕ) → h < u16_mod → parse_u16 (decimal h) ≡ some h
unfolding parse_u16 below
parse_u16-decimal h small =
    ap (below u16_mod) (parse_u64-decimal h (omega (arith, small)))
    ∙ ap (λ b. if b then some h else none) (fits h small)
  where
    fits : (h : ℕ) → h < u16_mod → ltb h u16_mod ≡ true
    fits h small = ground (arith, small)

-- A number is no word.
not_source : (t : Text) → all_chars is_digit t ≡ true → same_text t (codes "source") ≡ false
not_source [] h = refl
not_source (c ∷ t) h =
    let (digit, rest) = both (is_digit c) (all_chars is_digit t) h in
    ap (λ b. b && same_text t (codes "ource")) (not_s c digit)
  where
    not_s : (c : ℕ) → is_digit c ≡ true → (c == 115) ≡ false
    not_s c digit = ground (arith, digit)

-- The bounds of the fields' types.
abbrev pub IsBounded : VariantType → Type 0
IsBounded source_variant = Unit {0}
IsBounded (variant height bitrate) = (height < u16_mod) × (bitrate < u64_mod)
IsBounded (dvr height) = height < u16_mod

fields_of_variant :
    (height bitrate : ℕ)
    → height < u16_mod
    → bitrate < u64_mod
    → variant_fields (decimal height ∷ decimal bitrate ∷ []) ≡ some (variant height bitrate)
unfolding variant_fields variant_of
fields_of_variant height bitrate h b =
    ap
      (λ x.
        if x
        then some source_variant
        else variant_of (parse_u16 (decimal height)) (parse_u64 (decimal bitrate)))
      (not_source (decimal height)
        (all_chars-decimal is_digit height (λ d small. ground (arith, small))))
    ∙ ap (λ x. variant_of x (parse_u64 (decimal bitrate))) (parse_u16-decimal height h)
    ∙ ap (λ x. variant_of (some height) x) (parse_u64-decimal bitrate b)

split_variant :
    (height bitrate : ℕ)
    → split colon (decimal height ++ colon ∷ decimal bitrate)
      ≡ decimal height ∷ decimal bitrate ∷ []
split_variant height bitrate =
    split-front colon (decimal height) (decimal bitrate)
      (decimal_other colon height (inr (omega arith)))
    ∙ ap (λ ts. decimal height ∷ ts)
        (split-alone colon (decimal bitrate) (decimal_other colon bitrate (inr (omega arith))))

from_str-to_string : (v : VariantType) → IsBounded v → from_str (to_string v) ≡ some v
unfolding from_str to_string split of_fields dvr_fields dvr_of variant_fields
from_str-to_string source_variant h = refl
from_str-to_string (variant height bitrate) (h, b) =
    ap
      (λ ts. of_fields (
        onto_first 118 (
          onto_first 97 (
            onto_first 114
              (onto_first 105 (onto_first 97 (onto_first 110 (onto_first 116 ([] ∷ ts)))))))))
      (split_variant height bitrate)
    ∙ fields_of_variant height bitrate h b
from_str-to_string (dvr height) h =
    ap (λ ts. of_fields (onto_first 100 (onto_first 118 (onto_first 114 ([] ∷ ts)))))
      (split-alone colon (decimal height) (decimal_other colon height (inr (omega arith))))
    ∙ ap dvr_of (parse_u16-decimal height h)

-- A list with commas between.
abbrev pub joined : List VariantType → Text
joined [] = []
joined (v ∷ vs) = elim vs [ [] ↦ to_string v | w ∷ ws ↦ to_string v ++ comma ∷ joined vs ]

abbrev pub AreBounded : List VariantType → Type 0
AreBounded [] = Unit {0}
AreBounded (v ∷ vs) = IsBounded v × AreBounded vs

all_chars-to_string :
    (ok : ℕ → Bool) (v : VariantType)
    → ((d : ℕ) → d < 10 → ok (48 + d) ≡ true)
    → all_chars ok (codes "variant:source") ≡ true
    → all_chars ok (codes "variant:") ≡ true
    → all_chars ok (codes "dvr:") ≡ true
    → ok colon ≡ true
    → all_chars ok (to_string v) ≡ true
unfolding to_string
all_chars-to_string ok source_variant digit a b c e = a
all_chars-to_string ok (variant height bitrate) digit a b c e =
    all_chars-++ ok (codes "variant:") (decimal height ++ colon ∷ decimal bitrate) b (
      all_chars-++ ok (decimal height) (colon ∷ decimal bitrate) (all_chars-decimal ok height digit)
        (ap (λ x. x && all_chars ok (decimal bitrate)) e ∙ all_chars-decimal ok bitrate digit))
all_chars-to_string ok (dvr height) digit a b c e =
    all_chars-++ ok (codes "dvr:") (decimal height) c (all_chars-decimal ok height digit)

to_string_lower : (v : VariantType) → all_chars is_lower (to_string v) ≡ true
to_string_lower v =
    all_chars-to_string is_lower v (λ d small. ground (arith, small)) refl refl refl refl

to_string_other : (v : VariantType) → all_chars (is_other comma) (to_string v) ≡ true
to_string_other v =
    all_chars-to_string (is_other comma) v (λ d small. ground (arith, small)) refl refl refl refl

joined_lower : (vs : List VariantType) → all_chars is_lower (joined vs) ≡ true
joined_lower [] = refl
joined_lower (v ∷ []) = to_string_lower v
joined_lower (v ∷ w ∷ vs) =
    all_chars-++ is_lower (to_string v) (comma ∷ joined (w ∷ vs)) (to_string_lower v)
      (joined_lower (w ∷ vs))

already_lower : (t : Text) → all_chars is_lower t ≡ true → to_ascii_lowercase t ≡ t
already_lower [] h = refl
already_lower (c ∷ t) h =
    let (low, rest) = both (is_lower c) (all_chars is_lower t) h in
    ap (λ b. (if b then c + 32 else c) ∷ to_ascii_lowercase t)
      (not_is_true (leb 65 c && leb c 90) low)
    ∙ ap (λ ts. c ∷ ts) (already_lower t rest)

parse_each-joined :
    (vs : List VariantType) → AreBounded vs → parse_each (split comma (joined vs)) ≡ vs
unfolding parse_each split keep_some from_str of_fields
parse_each-joined [] h = refl
parse_each-joined (v ∷ []) h =
    ap parse_each (split-alone comma (to_string v) (to_string_other v))
    ∙ ap (λ o. keep_some o []) (from_str-to_string v h.0)
parse_each-joined (v ∷ w ∷ vs) h =
    ap parse_each (split-front comma (to_string v) (joined (w ∷ vs)) (to_string_other v))
    ∙ ap (λ o. keep_some o (parse_each (split comma (joined (w ∷ vs))))) (from_str-to_string v h.0)
    ∙ ap (λ ts. v ∷ ts) (parse_each-joined (w ∷ vs) h.1)

-- Capabilities with heights below 2^16 and bitrates below 2^64, printed with commas between, are read
-- back as they were.
pub parse_capabilities-joined :
    (vs : List VariantType) → AreBounded vs → parse_capabilities (some (joined vs)) ≡ vs
unfolding parse_capabilities
parse_capabilities-joined vs h =
    ap (λ t. parse_each (split comma t)) (already_lower (joined vs) (joined_lower vs))
    ∙ parse_each-joined vs h
