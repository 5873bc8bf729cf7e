-- ===== src/Http/Paths.antt =====
-- Names in requests (crates/zap-stream/src/http/hls.rs): `safe_path_component`,
-- `next_segment_exists` and `add_token_to_url`.
pub mod Traversal
pub mod Names
use zap_stream_core.Prelude.{
  ℕ, ◌+◌, ◌%◌, Bool, true, false, ◌&&◌, ◌||◌, Option, none, some, List, [], ◌∷◌, ◌++◌, ◌==◌,
  if◌then◌else◌, any,
}
use zap_stream_core.Prelude.Text.{Text, codes, decimal, parse_u64, u64_mod}

pub data StatusCode : Type 0 where
  bad_request not_found range_not_satisfiable internal_server_error : StatusCode

pub data Result {ℓ} (A : Type ℓ) : Type ℓ where
  ok : A → Result A
  err : StatusCode → Result A

infixl 5 ◌>>=◌
abbrev pub ◌>>=◌ {ℓ κ} : {A : Type ℓ} {B : Type κ} → Result A → (A → Result B) → Result B
ok a >>= f = f a
err e >>= f = err e

-- `str::contains` of a character.
abbrev pub contains : ℕ → Text → Bool
contains c = any λ d. d == c

abbrev pub is_dots : Text → Bool
is_dots [] = true
is_dots (c ∷ []) = c == b'.'
is_dots (c ∷ d ∷ []) = c == b'.' && d == b'.'
is_dots _ = false

-- The empty text, `.` and `..` are refused, and every separator.
unfoldable pub safe_path_component : Text → Result Text
safe_path_component part =
    if is_dots part || (contains b'/' part || (contains 0x5c part || contains 0 part))
    then err bad_request
    else ok part

-- `rsplit_once('.')`: at the last dot.
unfoldable pub rsplit_once_dot : Text → Option (Text × Text)
rsplit_once_dot [] = none
rsplit_once_dot (c ∷ cs) = elim (rsplit_once_dot cs) [
  | some (stem, ext) ↦ some (c ∷ stem, ext)
  | none ↦ if c == b'.' then some ([], cs) else none
]

exists_next : (Text → Bool) → Text → Option ℕ → Bool
exists_next exists ext none = false
exists_next exists ext (some idx) = exists (decimal ((idx + 1) % u64_mod) ++ b'.' ∷ ext)

exists_after : (Text → Bool) → Option (Text × Text) → Bool
unfolding exists_next
exists_after exists none = false
exists_after exists (some (stem, ext)) = exists_next exists ext (parse_u64 stem)

-- `exists` tells whether the segment's directory has a file of that name.
unfoldable pub next_segment_exists : (Text → Bool) → Text → Bool
unfolding exists_after
next_segment_exists exists segment_name = exists_after exists (rsplit_once_dot segment_name)

unfoldable pub add_token_to_url : Text → Text → Text
add_token_to_url url viewer_token =
    if contains b'?' url
    then url ++ codes "&vt=" ++ viewer_token
    else url ++ codes "?vt=" ++ viewer_token
