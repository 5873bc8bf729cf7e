-- ===== src/Prelude/Text.antt =====
-- Text as its list of code points, with the standard library's decimal printing and parsing of
-- unsigned 64-bit numbers (`format!("{}", n)`, `str::parse::<u64>`).
use Prim.Native.Nat.{ℕ, zero, suc, ◌+◌, ◌-◌, ◌*◌, ◌/◌, ◌%◌, ◌^◌, ◌<◌}
use Prim.Native.Char.{code}
use Prim.Native.String.{String}
use mathlib.Core.Path.{◌≡◌, refl, ap, ◌∙◌}
use mathlib.Core.Logic.{inl, inr}
use mathlib.Core.Bool.{Bool, true, false, ◌&&◌}
use mathlib.Core.List.{List, [], ◌∷◌, ◌++◌}
use mathlib.Core.Option.{Option, none, some}
use native.Mathlib.Omega.{arith}
use zap_stream_core.Prelude.Tests.{leb, ltb, ◌==◌, if◌then◌else◌, Bool-cases}

abbrev pub Text : Type 0
Text = List ℕ

abbrev pub codes : String → Text
codes String.[] = []
codes (String.◌∷◌ c s) = code c ∷ codes s

abbrev pub same_text : Text → Text → Bool
same_text [] [] = true
same_text [] (d ∷ ds) = false
same_text (c ∷ cs) [] = false
same_text (c ∷ cs) (d ∷ ds) = c == d && same_text cs ds

abbrev pub u64_mod : ℕ
u64_mod = 2 ^ 64

-- The digits of `n` in front of `acc`. The fuel is enough when it is above `n`.
decimal_onto : ℕ → ℕ → Text → Text
decimal_onto zero n acc = acc
decimal_onto (suc fuel) n acc =
    let more = decimal_onto fuel (n / 10) ((48 + n % 10) ∷ acc) in
    if ltb n 10 then (48 + n) ∷ acc else more

unfoldable pub decimal : ℕ → Text
unfolding decimal_onto
decimal n = decimal_onto (suc n) n []

parse_digits : ℕ → Text → Option ℕ
parse_digits acc [] = some acc
parse_digits acc (c ∷ cs) =
    let rest = parse_digits (acc * 10 + (c - 48)) cs in
    if leb 48 c && leb c 57
    then (if ltb (acc * 10 + (c - 48)) u64_mod then rest else none)
    else none

parse_unsigned : Text → Option ℕ
unfolding parse_digits
parse_unsigned [] = none
parse_unsigned (c ∷ cs) = parse_digits 0 (c ∷ cs)

-- A leading `+` is allowed; an empty text, another character or an overflow is an error.
unfoldable pub parse_u64 : Text → Option ℕ
unfolding parse_unsigned
parse_u64 [] = none
parse_u64 (c ∷ cs) = if c == b'+' then parse_unsigned cs else parse_unsigned (c ∷ cs)

parse_digits-digit :
    (acc d n : ℕ) (cs : Text)
    → d < 10
    → n < u64_mod
    → acc * 10 + d ≡ n
    → parse_digits acc ((48 + d) ∷ cs) ≡ parse_digits n cs
unfolding parse_digits
parse_digits-digit acc d n cs h k e =
    let e' : acc * 10 + (48 + d - 48) ≡ n = omega arith in rw e' (ground arith)

parse_digits-decimal_onto :
    (fuel n : ℕ) (acc : Text)
    → n < fuel
    → n < u64_mod
    → parse_digits 0 (decimal_onto fuel n acc) ≡ parse_digits n acc
unfolding decimal_onto
parse_digits-decimal_onto zero n acc h k = absurd (omega arith)
parse_digits-decimal_onto (suc fuel) n acc h k = elim (Bool-cases (ltb n 10)) [
  | inl small ↦ rw small (parse_digits-digit 0 n n acc (ground arith) k (omega arith))
  | inr large ↦ rw large (
      parse_digits-decimal_onto fuel (n / 10) ((48 + n % 10) ∷ acc) (ground arith) (omega arith)
      ∙ parse_digits-digit (n / 10) (n % 10) n acc (omega arith) k (omega arith))
]

-- A printed number begins with a digit, so not with a sign.
parse_unsigned-decimal_onto :
    (fuel n : ℕ) (acc : Text)
    → n < fuel
    → parse_u64 (decimal_onto fuel n acc) ≡ parse_digits 0 (decimal_onto fuel n acc)
unfolding decimal_onto parse_u64
parse_unsigned-decimal_onto zero n acc h = absurd (omega arith)
parse_unsigned-decimal_onto (suc fuel) n acc h = elim (Bool-cases (ltb n 10)) [
  | inl small ↦ rw small (ground arith)
  | inr large ↦
      rw large (parse_unsigned-decimal_onto fuel (n / 10) ((48 + n % 10) ∷ acc) (ground arith))
]

pub parse_u64-decimal : (n : ℕ) → n < u64_mod → parse_u64 (decimal n) ≡ some n
unfolding decimal parse_digits
parse_u64-decimal n h =
    parse_unsigned-decimal_onto (suc n) n [] (omega arith)
    ∙ parse_digits-decimal_onto (suc n) n [] (omega arith) h

abbrev pub all_chars : (ℕ → Bool) → Text → Bool
all_chars ok [] = true
all_chars ok (c ∷ cs) = ok c && all_chars ok cs

pub all_chars-++ :
    (ok : ℕ → Bool) (s t : Text)
    → all_chars ok s ≡ true
    → all_chars ok t ≡ true
    → all_chars ok (s ++ t) ≡ true
all_chars-++ ok [] t h e = e
all_chars-++ ok (c ∷ s) t h e = go (ok c) (all_chars-++ ok s t) h
  where
    go :
        (b : Bool)
        → (all_chars ok s ≡ true → all_chars ok t ≡ true → all_chars ok (s ++ t) ≡ true)
        → (b && all_chars ok s) ≡ true
        → (b && all_chars ok (s ++ t)) ≡ true
    go true ih h = ih h e
    go false ih h = cc

all_chars-decimal_onto :
    (ok : ℕ → Bool) (fuel n : ℕ) (acc : Text)
    → ((d : ℕ) → d < 10 → ok (48 + d) ≡ true)
    → all_chars ok acc ≡ true
    → all_chars ok (decimal_onto fuel n acc) ≡ true
unfolding decimal_onto
all_chars-decimal_onto ok zero n acc digit h = h
all_chars-decimal_onto ok (suc fuel) n acc digit h = elim (Bool-cases (ltb n 10)) [
  | inl small ↦ rw small (with_digit n (ground (arith, small)))
  | inr large ↦ rw large (
      all_chars-decimal_onto ok fuel (n / 10) ((48 + n % 10) ∷ acc) digit
        (with_digit (n % 10) (omega arith)))
]
  where
    with_digit : (d : ℕ) → d < 10 → (ok (48 + d) && all_chars ok acc) ≡ true
    with_digit d small = ap (λ b. b && all_chars ok acc) (digit d small) ∙ h

pub all_chars-decimal :
    (ok : ℕ → Bool) (n : ℕ)
    → ((d : ℕ) → d < 10 → ok (48 + d) ≡ true)
    → all_chars ok (decimal n) ≡ true
unfolding decimal
all_chars-decimal ok n digit = all_chars-decimal_onto ok (suc n) n [] digit refl
