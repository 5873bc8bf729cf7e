-- ===== src/Http/Paths/Traversal.antt =====
-- A path component that `safe_path_component` (crates/zap-stream/src/http/hls.rs) lets through names
-- an entry of the directory that it is joined to.
use zap_stream_core.Prelude.{
  ◌≡◌, refl, sym, ap, ◌∙◌, ◌++◌, append-nil, append_assoc, inl, inr, true, false, List, [], ◌∷◌,
  ◌==◌, if◌then◌else◌, Bool-cases, arith,
}
use zap_stream_core.Prelude.Text.{Text}
use zap_stream_core.Http.Paths.{contains, is_dots, safe_path_component, ok}

-- How the file system walks a relative path from a directory, the innermost name first: `/`
-- separates, an empty name and `.` stay, `..` goes up.
abbrev up : List Text → List Text
up [] = []
up (_ ∷ dir) = dir

abbrev pub enter : Text → List Text → List Text
enter [] dir = dir
enter (c ∷ []) dir = if c == b'.' then dir else (c ∷ []) ∷ dir
enter (c ∷ d ∷ []) dir =
    if c == b'.' then (if d == b'.' then up dir else (c ∷ d ∷ []) ∷ dir) else (c ∷ d ∷ []) ∷ dir
enter (c ∷ d ∷ e ∷ name) dir = (c ∷ d ∷ e ∷ name) ∷ dir

enter-name : (name : Text) (dir : List Text) → is_dots name ≡ false → enter name dir ≡ name ∷ dir
enter-name [] dir h = cc
enter-name (c ∷ []) dir h = ground (arith, h)
enter-name (c ∷ d ∷ []) dir h = ground (arith, h)
enter-name (c ∷ d ∷ e ∷ name) dir h = refl

-- `name` is what has been read of the current name.
abbrev pub walk : List Text → Text → Text → List Text
walk dir name [] = enter name dir
walk dir name (c ∷ path) = elim (c == b'/') [
  | true ↦ walk (enter name dir) [] path
  | false ↦ walk dir (name ++ c ∷ []) path
]

walk-name :
    (dir : List Text) (name path : Text)
    → contains b'/' path ≡ false
    → walk dir name path ≡ enter (name ++ path) dir
walk-name dir name [] h = ap (λ n. enter n dir) (sym (append-nil name))
walk-name dir name (c ∷ path) h = elim (Bool-cases (c == b'/')) [
  | inl e ↦ absurd (ground arith)
  | inr e ↦
      rw (e, walk)
        (walk-name dir (name ++ c ∷ []) path (ground arith)
          ∙ ap (λ n. enter n dir) (append_assoc name (c ∷ []) path))
]

-- A component that is accepted is passed on as it is, and the file system's walk along it from any
-- directory ends at that name in that directory: it neither stays, goes up nor goes further down.
pub safe_path_component-walk :
    (part name : Text) (dir : List Text)
    → safe_path_component part ≡ ok name
    → (name ≡ part) × (walk dir [] part ≡ part ∷ dir)
unfolding safe_path_component
safe_path_component-walk part name dir h = elim (Bool-cases (is_dots part)) [
  | inl e ↦ absurd (ground arith)
  | inr e ↦ elim (Bool-cases (contains b'/' part)) [
    | inl f ↦ absurd (ground arith)
    | inr f ↦ (ground arith, walk-name dir [] part f ∙ enter-name part dir e)
  ]
]
