-- ===== src/Pipeline/Params.antt =====
-- `EncoderParams` of crates/core/src/egress/mod.rs: encoder parameters with one value for each kind.
use zap_stream_core.Prelude.{
  ℕ, ◌+◌, ◌≤◌, ◌≡◌, refl, ap, ◌∙◌, inl, inr, Bool, true, false, Bool-cases, Option, none, some,
  List, [], ◌∷◌, ◌==◌, if◌then◌else◌, find, arith,
}
use zap_stream_core.Prelude.Text.{Text}

pub data EncoderParam : Type 0 where
  width height bitrate gop_size max_b_frames profile level sample_rate audio_channels :
      ℕ → EncoderParam
  framerate : ℕ → ℕ → EncoderParam
  preset tune color_space color_range pixel_format sample_format : Text → EncoderParam

-- `std::mem::discriminant`, in the order of the source.
unfoldable pub discriminant : EncoderParam → ℕ
discriminant (width value) = 0
discriminant (height value) = 1
discriminant (bitrate value) = 2
discriminant (framerate num den) = 3
discriminant (preset name) = 4
discriminant (tune name) = 5
discriminant (color_space name) = 6
discriminant (color_range name) = 7
discriminant (gop_size size) = 8
discriminant (max_b_frames size) = 9
discriminant (profile id) = 10
discriminant (level id) = 11
discriminant (pixel_format name) = 12
discriminant (sample_format name) = 13
discriminant (sample_rate size) = 14
discriminant (audio_channels count) = 15

unfoldable pub eq_type : EncoderParam → EncoderParam → Bool
eq_type a b = discriminant a == discriminant b

-- The first parameter of the kind is replaced, else the new one is pushed.
unfoldable pub add_param : List EncoderParam → EncoderParam → List EncoderParam
add_param [] param = param ∷ []
add_param (p ∷ params) param = elim (eq_type p param) [
  | true ↦ param ∷ params
  | false ↦ p ∷ add_param params param
]

unfoldable pub add_params : List EncoderParam → List EncoderParam → List EncoderParam
unfolding add_param
add_params params [] = params
add_params params (p ∷ new) = add_params (add_param params p) new

-- How many parameters have the kind.
unfoldable pub occurrences : ℕ → List EncoderParam → ℕ
occurrences kind [] = 0
occurrences kind (p ∷ params) = (if discriminant p == kind then 1 else 0) + occurrences kind params

abbrev pub value_of : ℕ → List EncoderParam → Option EncoderParam
value_of kind = find λ p. discriminant p == kind

abbrev pub or_else : Option EncoderParam → Option EncoderParam → Option EncoderParam
or_else (some p) q = some p
or_else none q = q

-- The last of a kind in a list.
abbrev pub last_value : ℕ → List EncoderParam → Option EncoderParam
last_value kind [] = none
last_value kind (p ∷ params) =
    or_else (last_value kind params) (if discriminant p == kind then some p else none)

add_param-other :
    (params : List EncoderParam) (param : EncoderParam) (kind : ℕ)
    → (discriminant param == kind) ≡ false
    → occurrences kind (add_param params param) ≡ occurrences kind params
unfolding add_param occurrences eq_type
add_param-other [] param kind h = ground arith
add_param-other (p ∷ params) param kind h =
    elim (Bool-cases (discriminant p == discriminant param)) [
      | inl e ↦ rw (e, occurrences) (ground (arith, e, h))
      | inr e ↦
          rw (e, occurrences)
            (ap (λ n. (if discriminant p == kind then 1 else 0) + n)
              (add_param-other params param kind h))
    ]

add_param-occurrences :
    (params : List EncoderParam) (param : EncoderParam) (kind : ℕ)
    → occurrences kind params ≤ 1
    → occurrences kind (add_param params param) ≤ 1
unfolding add_param occurrences eq_type
add_param-occurrences [] param kind h = ground arith
add_param-occurrences (p ∷ params) param kind h =
    elim (Bool-cases (discriminant p == discriminant param)) [
      | inl e ↦ rw (e, occurrences) (ground (arith, e, h))
      | inr e ↦ elim (Bool-cases (discriminant param == kind)) [
        | inl k ↦
            rw (e, occurrences)
              (ground (arith, e, k, h, add_param-occurrences params param kind (ground (arith, h))))
        | inr k ↦ rw (e, occurrences) (omega (arith, h, add_param-other params param kind k))
      ]
    ]

add_param-value_of :
    (params : List EncoderParam) (param : EncoderParam) (kind : ℕ)
    → value_of kind (add_param params param)
      ≡ (if discriminant param == kind then some param else value_of kind params)
unfolding add_param eq_type
add_param-value_of [] param kind = refl
add_param-value_of (p ∷ params) param kind =
    elim (Bool-cases (discriminant p == discriminant param)) [
      | inl e ↦ rw (e, add_param) (ground (arith, e))
      | inr e ↦ rw (e, add_param) (ground (arith, e, add_param-value_of params param kind))
    ]

last_or :
    (later old : Option EncoderParam) (b : Bool) (p : EncoderParam)
    → or_else later (if b then some p else old)
      ≡ or_else (or_else later (if b then some p else none)) old
last_or (some q) old b p = refl
last_or none old true p = refl
last_or none old false p = refl

-- A list with at most one parameter of a kind has so after any parameters are added, and its value
-- of the kind is then the last one added, or the old one when none was.
pub add_params-value_of :
    (params new : List EncoderParam) (kind : ℕ)
    → occurrences kind params ≤ 1
    → (occurrences kind (add_params params new) ≤ 1)
      × (value_of kind (add_params params new)
          ≡ or_else (last_value kind new) (value_of kind params))
unfolding add_params
add_params-value_of params [] kind h = (h, refl)
add_params-value_of params (p ∷ new) kind h =
    let rest =
      add_params-value_of (add_param params p) new kind (add_param-occurrences params p kind h) in
    (
      rest.0,
      rest.1
          ∙ ap (or_else (last_value kind new)) (add_param-value_of params p kind)
          ∙ last_or (last_value kind new) (value_of kind params) (discriminant p == kind) p,
    )
