-- ===== src/Endpoint.antt =====
-- The capabilities of an ingest endpoint, crates/core/src/endpoint.rs.
pub mod Order
pub mod Names
pub mod Grouping
pub mod Config
pub mod Built
use Prim.Native.Nat.{compare, Ordering}
use zap_stream_core.Prelude.{
  ℕ, ◌^◌, ◌+◌, Bool, true, false, ◌&&◌, Option, none, some, List, [], ◌∷◌, ◌++◌, map, ◌==◌,
  if◌then◌else◌, ltb, leb,
}
use zap_stream_core.Prelude.Text.{same_text, Text, codes, decimal, parse_u64}

-- `height` is a u16 and `bitrate` a u64.
pub data VariantType : Type 0 where
  source_variant : VariantType
  variant : ℕ → ℕ → VariantType
  dvr : ℕ → VariantType

abbrev pub type_order : VariantType → ℕ
type_order source_variant = 0
type_order (variant height bitrate) = 1
type_order (dvr height) = 2

abbrev pub then_cmp : Ordering → Ordering → Ordering
then_cmp Ordering.eq o = o
then_cmp Ordering.lt o = Ordering.lt
then_cmp Ordering.gt o = Ordering.gt

-- Of one kind, the higher comes first, and of one height the one of more bits.
abbrev pub cmp_same : VariantType → VariantType → Ordering
cmp_same (variant h1 b1) (variant h2 b2) = then_cmp (compare h2 h1) (compare b2 b1)
cmp_same (dvr h1) (dvr h2) = compare h2 h1
cmp_same (variant h1 b1) source_variant = Ordering.eq
cmp_same (variant h1 b1) (dvr h2) = Ordering.eq
cmp_same (dvr h1) source_variant = Ordering.eq
cmp_same (dvr h1) (variant h2 b2) = Ordering.eq
cmp_same source_variant b = Ordering.eq

unfoldable pub cmp : VariantType → VariantType → Ordering
cmp a b = then_cmp (compare (type_order a) (type_order b)) (cmp_same a b)

abbrev pub colon : ℕ
colon = b':'

abbrev pub comma : ℕ
comma = b','

-- `Display`.
unfoldable pub to_string : VariantType → Text
to_string source_variant = codes "variant:source"
to_string (variant height bitrate) = codes "variant:" ++ decimal height ++ colon ∷ decimal bitrate
to_string (dvr height) = codes "dvr:" ++ decimal height

pub onto_first : ℕ → List Text → List Text
onto_first c [] = (c ∷ []) ∷ []
onto_first c (t ∷ ts) = (c ∷ t) ∷ ts

-- `str::split` of one character: never empty.
unfoldable pub split : ℕ → Text → List Text
unfolding onto_first
split sep [] = [] ∷ []
split sep (c ∷ cs) = let rest = split sep cs in if c == sep then [] ∷ rest else onto_first c rest

abbrev pub u16_mod : ℕ
u16_mod = 2 ^ 16

pub below : ℕ → Option ℕ → Option ℕ
below bound none = none
below bound (some n) = if ltb n bound then some n else none

-- `str::parse::<u16>`.
unfoldable pub parse_u16 : Text → Option ℕ
unfolding below
parse_u16 t = below u16_mod (parse_u64 t)

pub variant_of : Option ℕ → Option ℕ → Option VariantType
variant_of (some h) (some b) = some (variant h b)
variant_of (some h) none = none
variant_of none b = none

pub dvr_of : Option ℕ → Option VariantType
dvr_of none = none
dvr_of (some h) = some (dvr h)

-- The fields behind `variant`.
pub variant_fields : List Text → Option VariantType
unfolding variant_of parse_u16
variant_fields [] = none
variant_fields (h ∷ rest) =
    if same_text h (codes "source") then some source_variant else (elim rest [
      | [] ↦ none
      | b ∷ more ↦ elim more [ [] ↦ variant_of (parse_u16 h) (parse_u64 b) | t ∷ ts ↦ none ]
    ])

pub dvr_fields : List Text → Option VariantType
unfolding dvr_of parse_u16
dvr_fields [] = none
dvr_fields (h ∷ []) = dvr_of (parse_u16 h)
dvr_fields (h ∷ t ∷ ts) = none

pub of_fields : List Text → Option VariantType
unfolding variant_fields dvr_fields
of_fields [] = none
of_fields (kind ∷ fields) =
    if same_text kind (codes "variant")
    then variant_fields fields
    else if same_text kind (codes "dvr")
    then dvr_fields fields
    else none

-- `FromStr`.
unfoldable pub from_str : Text → Option VariantType
unfolding of_fields split
from_str t = of_fields (split colon t)

abbrev pub to_ascii_lowercase : Text → Text
to_ascii_lowercase = map λ c. if leb 65 c && leb c 90 then c + 32 else c

pub keep_some : Option VariantType → List VariantType → List VariantType
keep_some none vs = vs
keep_some (some v) vs = v ∷ vs

unfoldable pub parse_each : List Text → List VariantType
unfolding keep_some from_str
parse_each [] = []
parse_each (t ∷ ts) = keep_some (from_str t) (parse_each ts)

unfoldable pub parse_capabilities : Option Text → List VariantType
unfolding parse_each split
parse_capabilities none = []
parse_capabilities (some cap) = parse_each (split comma (to_ascii_lowercase cap))
