-- ===== src/Endpoint/Grouping/Ids.antt =====
-- The ids that `get_streams_for_egress` of crates/core/src/endpoint.rs hands out are those of variants
-- of the right kind, and each variant is of the kind of its source stream.
use zap_stream_core.Prelude.{
  ℕ, ◌+◌, length, ◌≡◌, refl, ap, subst, ◌∙◌, inl, Bool, true, false, not, ◌||◌, Option, none, some,
  List, [], ◌∷◌, ◌++◌, if◌then◌else◌, some_inj, In, In-++, All, All-++,
}
use zap_stream_core.Prelude.Text.{same_text}
use zap_stream_core.Pipeline.Params.{EncoderParam}
use zap_stream_core.Pipeline.Variants.{
  StreamType, IngressStream, Ffmpeg, VariantStream, VariantGroup, variant_id, variant_src_index,
}
use zap_stream_core.Pipeline.Encoders.{
  EgressEncoderConfig, EgressType, get_encoder_params, default_h264, default_of, default_video_h264,
  default_audio_h264, with_input, is_recorder,
}
use zap_stream_core.Endpoint.Grouping.{
  GroupedIngressStream, Request, accepted, request_of, requests_of, requests, codec_name_or_empty,
}

-- The kind of a variant, as a stream's.
abbrev pub kind_of : VariantStream → StreamType
kind_of (VariantStream.video v) = StreamType.video
kind_of (VariantStream.copy_video v) = StreamType.video
kind_of (VariantStream.audio a) = StreamType.audio
kind_of (VariantStream.copy_audio a) = StreamType.audio
kind_of (VariantStream.subtitle id src_index) = StreamType.subtitle
kind_of (VariantStream.plugin id src_index) = StreamType.unknown

-- Some variant of the list has the kind and the id.
abbrev pub Is : List VariantStream → StreamType → ℕ → Type 0
Is vs t id = (v : VariantStream) × In v vs × (variant_id v ≡ id) × (kind_of v ≡ t)

abbrev pub Slot : List VariantStream → StreamType → Option ℕ → Type 0
Slot vs t none = Unit {0}
Slot vs t (some id) = Is vs t id

-- Each id of a group is that of a variant of the slot's kind.
abbrev pub GroupFits : List VariantStream → VariantGroup → Type 0
GroupFits vs g =
    Slot vs StreamType.video g.video
    × Slot vs StreamType.audio g.audio
    × Slot vs StreamType.subtitle g.subtitle

abbrev pub EntryFits : List VariantStream → EgressEncoderConfig × ℕ → Type 0
EntryFits vs entry = Is vs entry.0.stream_type entry.1

-- The variant is of the kind of a source stream that has its index.
abbrev pub Sourced : List IngressStream → VariantStream → Type 0
Sourced streams v =
    (s : IngressStream) × In s streams
    × (s.index ≡ variant_src_index v)
    × (s.stream_type ≡ kind_of v)

abbrev pub Asked : List IngressStream → Request → Type 0
Asked streams r = In r.ingress_stream streams × (r.ingress_stream.stream_type ≡ r.param.stream_type)

abbrev pub Offered : List IngressStream → Option IngressStream → Type 0
Offered streams none = Unit {0}
Offered streams (some s) = In s streams

abbrev pub GroupOffered : List IngressStream → GroupedIngressStream → Type 0
GroupOffered streams g =
    Offered streams g.video × Offered streams g.audio × Offered streams g.subtitle

pub Is-++ : (vs ws : List VariantStream) (t : StreamType) (id : ℕ) → Is vs t id → Is (vs ++ ws) t id
Is-++ vs ws t id (v, i, e, k) = (v, In-++ v vs ws (inl i), e, k)

Slot-++ :
    (vs ws : List VariantStream) (t : StreamType) (o : Option ℕ) → Slot vs t o → Slot (vs ++ ws) t o
Slot-++ vs ws t none h = tt
Slot-++ vs ws t (some id) h = Is-++ vs ws t id h

pub GroupFits-++ :
    (vs ws : List VariantStream) (g : VariantGroup) → GroupFits vs g → GroupFits (vs ++ ws) g
GroupFits-++ vs ws g (v, a, s) = (
  Slot-++ vs ws StreamType.video g.video v,
  Slot-++ vs ws StreamType.audio g.audio a,
  Slot-++ vs ws StreamType.subtitle g.subtitle s,
)

default_of-type :
    (ff : Ffmpeg) (s : IngressStream) (t : StreamType) (p : EgressEncoderConfig)
    → default_of ff s t ≡ some p
    → t ≡ p.stream_type
unfolding default_video_h264 default_audio_h264
default_of-type ff s StreamType.video p e = ap (λ c. c.stream_type) (some_inj e)
default_of-type ff s StreamType.audio p e = ap (λ c. c.stream_type) (some_inj e)
default_of-type ff s StreamType.subtitle p e = cc
default_of-type ff s StreamType.unknown p e = cc

pub get_encoder_params-type :
    (ff : Ffmpeg) (e : EgressType) (s : IngressStream) (input : List EncoderParam)
    (p : EgressEncoderConfig)
    → get_encoder_params ff e s input ≡ some p
    → s.stream_type ≡ p.stream_type
unfolding get_encoder_params with_input default_h264
get_encoder_params-type ff e s input p = go (is_recorder e) (default_of ff s s.stream_type) refl
  where
    go :
        (b : Bool) (o : Option EgressEncoderConfig)
        → default_of ff s s.stream_type ≡ o
        → (if b then none else with_input e s input o) ≡ some p
        → s.stream_type ≡ p.stream_type
    go true o d h = cc
    go false none d h = cc
    go false (some c) d h =
        default_of-type ff s s.stream_type c d ∙ ap (λ q. q.stream_type) (some_inj h)

abbrev request : EgressType → EgressEncoderConfig → IngressStream → ℕ → Request
request e p s next = record { egress = e; param = p; ingress_stream = s; id = next }

-- Whatever an egress asks of the stream has the property.
abbrev pub Serves : (Request → Type 0) → Ffmpeg → Option IngressStream → List EncoderParam → Type 0
Serves P ff o params =
    (e : EgressType) (s : IngressStream) (next : ℕ) (p : EgressEncoderConfig)
    → o ≡ some s
    → get_encoder_params ff e s params ≡ some p
    → P (request e p s next)

accepted-All :
    (P : Request → Type 0) (ff : Ffmpeg) (copy : Bool) (e : EgressType) (s : IngressStream)
    (next : ℕ) (o : Option EgressEncoderConfig)
    → ((p : EgressEncoderConfig) → o ≡ some p → P (request e p s next))
    → All P (accepted ff copy e s next o)
unfolding accepted
accepted-All P ff copy e s next none h = tt
accepted-All P ff copy e s next (some p) h =
    go (not copy || same_text p.codec (codec_name_or_empty (ff.codec_name s.codec)))
  where
    go : (b : Bool) → All P (if b then request e p s next ∷ [] else [])
    go true = (h p refl, tt)
    go false = tt

request_of-All :
    (P : Request → Type 0) (ff : Ffmpeg) (copy : Bool) (e : EgressType) (o : Option IngressStream)
    (params : List EncoderParam) (next : ℕ)
    → Serves P ff o params
    → All P (request_of ff copy e o params next)
unfolding request_of
request_of-All P ff copy e none params next h = tt
request_of-All P ff copy e (some s) params next h =
    accepted-All P ff copy e s next (get_encoder_params ff e s params) (λ p. h e s next p refl)

requests_of-All :
    (P : Request → Type 0) (ff : Ffmpeg) (copy : Bool) (g : GroupedIngressStream) (e : EgressType)
    (next : ℕ)
    → Serves P ff g.video g.video_params
    → Serves P ff g.audio g.audio_params
    → Serves P ff g.subtitle g.subtitle_params
    → All P (requests_of ff copy g e next)
unfolding requests_of
requests_of-All P ff copy g e next hv ha hs =
    let v = request_of ff copy e g.video g.video_params next in
    let a = request_of ff copy e g.audio g.audio_params (next + length v) in
    let s = request_of ff copy e g.subtitle g.subtitle_params (next + length v + length a) in
    All-++ P (v ++ a) s
      (All-++ P v a (request_of-All P ff copy e g.video g.video_params next hv)
        (request_of-All P ff copy e g.audio g.audio_params (next + length v) ha))
      (request_of-All P ff copy e g.subtitle g.subtitle_params (next + length v + length a) hs)

pub requests-All :
    (P : Request → Type 0) (ff : Ffmpeg) (copy : Bool) (g : GroupedIngressStream)
    (egress : List EgressType) (next : ℕ)
    → Serves P ff g.video g.video_params
    → Serves P ff g.audio g.audio_params
    → Serves P ff g.subtitle g.subtitle_params
    → All P (requests ff copy g egress next)
unfolding requests
requests-All P ff copy g [] next hv ha hs = tt
requests-All P ff copy g (e ∷ egress) next hv ha hs =
    let r = requests_of ff copy g e next in
    All-++ P r (requests ff copy g egress (next + length r))
      (requests_of-All P ff copy g e next hv ha hs)
      (requests-All P ff copy g egress (next + length r) hv ha hs)

Offered-Serves :
    (streams : List IngressStream) (ff : Ffmpeg) (o : Option IngressStream)
    (params : List EncoderParam)
    → Offered streams o
    → Serves (Asked streams) ff o params
Offered-Serves streams ff o params i e s next p same h =
    (subst (Offered streams) same i, get_encoder_params-type ff e s params p h)

pub requests-Asked :
    (streams : List IngressStream) (ff : Ffmpeg) (copy : Bool) (g : GroupedIngressStream)
    (egress : List EgressType) (next : ℕ)
    → GroupOffered streams g
    → All (Asked streams) (requests ff copy g egress next)
requests-Asked streams ff copy g egress next (v, a, s) =
    requests-All (Asked streams) ff copy g egress next
      (Offered-Serves streams ff g.video g.video_params v)
      (Offered-Serves streams ff g.audio g.audio_params a)
      (Offered-Serves streams ff g.subtitle g.subtitle_params s)
