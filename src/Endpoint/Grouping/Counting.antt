-- ===== src/Endpoint/Grouping/Counting.antt =====
-- The fresh ids that `get_streams_for_egress` of crates/core/src/endpoint.rs gives to its variants.
use zap_stream_core.Prelude.{
  ℕ, ◌+◌, ◌≤◌, ◌≡◌, refl, sym, subst, ◌∙◌, Bool, true, false, not, ◌||◌, Option, none, some, List,
  [], ◌∷◌, ◌++◌, some_inj, if◌then◌else◌, length, length-append, append_assoc, append-nil, arith,
}
use zap_stream_core.Prelude.Text.{same_text}
use zap_stream_core.Pipeline.Params.{EncoderParam}
use zap_stream_core.Pipeline.Variants.{IngressStream, Ffmpeg, VariantStream, variant_id}
use zap_stream_core.Pipeline.Encoders.{EgressEncoderConfig, EgressType, get_encoder_params}
use zap_stream_core.Endpoint.Grouping.{
  GroupedIngressStream, Request, codec_name_or_empty, accepted, request_of, requests_of, requests,
  Streams, find_config, new_variant, insert_new, place_at, place, place_all, streams_of,
  get_streams_for_egress,
}
use zap_stream_core.Endpoint.Grouping.Fresh.{new_variant-keeps}

abbrev pub Consecutive : ℕ → List Request → Type 0
Consecutive n [] = Unit {0}
Consecutive n (r ∷ rs) = (r.id ≡ n) × Consecutive (n + 1) rs

Consecutive-++ :
    (n : ℕ) (rs qs : List Request)
    → Consecutive n rs
    → Consecutive (n + length rs) qs
    → Consecutive n (rs ++ qs)
Consecutive-++ n [] qs h g = subst (λ m. Consecutive m qs) (omega arith) g
Consecutive-++ n (r ∷ rs) qs h g =
    (h.0, Consecutive-++ (n + 1) rs qs h.1 (subst (λ m. Consecutive m qs) (omega arith) g))

accepted-Consecutive :
    (ff : Ffmpeg) (copy : Bool) (e : EgressType) (s : IngressStream) (next : ℕ)
    (o : Option EgressEncoderConfig)
    → Consecutive next (accepted ff copy e s next o)
unfolding accepted
accepted-Consecutive ff copy e s next none = tt
accepted-Consecutive ff copy e s next (some p) =
    go (not copy || same_text p.codec (codec_name_or_empty (ff.codec_name s.codec)))
  where
    go :
        (b : Bool)
        → Consecutive next
            (if b then record { egress = e; param = p; ingress_stream = s; id = next } ∷ [] else [])
    go true = (refl, tt)
    go false = tt

request_of-Consecutive :
    (ff : Ffmpeg) (copy : Bool) (e : EgressType) (o : Option IngressStream)
    (params : List EncoderParam) (next : ℕ)
    → Consecutive next (request_of ff copy e o params next)
unfolding request_of
request_of-Consecutive ff copy e none params next = tt
request_of-Consecutive ff copy e (some s) params next =
    accepted-Consecutive ff copy e s next (get_encoder_params ff e s params)

requests_of-Consecutive :
    (ff : Ffmpeg) (copy : Bool) (g : GroupedIngressStream) (e : EgressType) (next : ℕ)
    → Consecutive next (requests_of ff copy g e next)
unfolding requests_of
requests_of-Consecutive ff copy g e next =
    let v = request_of ff copy e g.video g.video_params next in
    let a = request_of ff copy e g.audio g.audio_params (next + length v) in
    let s = request_of ff copy e g.subtitle g.subtitle_params (next + length v + length a) in
    Consecutive-++ next (v ++ a) s
      (Consecutive-++ next v a (request_of-Consecutive ff copy e g.video g.video_params next)
        (request_of-Consecutive ff copy e g.audio g.audio_params (next + length v)))
      (subst (λ m. Consecutive m s) (omega (arith, length-append v a))
        (request_of-Consecutive ff copy e g.subtitle g.subtitle_params
          (next + length v + length a)))

requests-Consecutive :
    (ff : Ffmpeg) (copy : Bool) (g : GroupedIngressStream) (egress : List EgressType) (next : ℕ)
    → Consecutive next (requests ff copy g egress next)
unfolding requests
requests-Consecutive ff copy g [] next = tt
requests-Consecutive ff copy g (e ∷ egress) next =
    let r = requests_of ff copy g e next in
    Consecutive-++ next r (requests ff copy g egress (next + length r))
      (requests_of-Consecutive ff copy g e next)
      (requests-Consecutive ff copy g egress (next + length r))

-- The ids grow along the list, from at least `low`, and stay below `high`.
abbrev pub Rising : ℕ → List VariantStream → ℕ → Type 0
Rising low [] high = low ≤ high
Rising low (v ∷ vs) high = (low ≤ variant_id v) × Rising (variant_id v + 1) vs high

Rising-weaken :
    (low : ℕ) (vs : List VariantStream) (high higher : ℕ)
    → high ≤ higher
    → Rising low vs high
    → Rising low vs higher
Rising-weaken low [] high higher h r = omega (arith, h, r)
Rising-weaken low (v ∷ vs) high higher h r =
    (r.0, Rising-weaken (variant_id v + 1) vs high higher h r.1)

Rising-snoc :
    (low : ℕ) (vs : List VariantStream) (n : ℕ) (v : VariantStream)
    → variant_id v ≡ n
    → Rising low vs n
    → Rising low (vs ++ v ∷ []) (n + 1)
Rising-snoc low [] n v e r = (omega (arith, e, r), omega (arith, e))
Rising-snoc low (w ∷ vs) n v e r = (r.0, Rising-snoc (variant_id w + 1) vs n v e r.1)

place-Rising :
    (base : List VariantStream) (ff : Ffmpeg) (copy : Bool) (r : Request) (s : Streams) (n : ℕ)
    → r.id ≡ n
    → Rising 0 (base ++ s.ret) n
    → Rising 0 (base ++ (place ff copy r s).ret) (n + 1)
unfolding place place_at insert_new
place-Rising base ff copy r s n e h = at (find_config r.param s.dup_map)
  where
    kept : Rising 0 (base ++ s.ret) (n + 1)
    kept = Rising-weaken 0 (base ++ s.ret) n (n + 1) (omega arith) h

    new :
        (o : Option VariantStream)
        → new_variant ff copy r r.param.stream_type ≡ o
        → Rising 0 (base ++ (insert_new o r s).ret) (n + 1)
    new none k = kept
    new (some v) k =
        subst (λ vs. Rising 0 vs (n + 1)) (append_assoc base s.ret (v ∷ []))
          (Rising-snoc 0 (base ++ s.ret) n v ((new_variant-keeps ff copy r v k).0 ∙ e) h)

    at : (o : Option ℕ) → Rising 0 (base ++ (place_at ff copy r o s).ret) (n + 1)
    at none = new (new_variant ff copy r r.param.stream_type) refl
    at (some held) = kept

place_all-Rising :
    (base : List VariantStream) (ff : Ffmpeg) (copy : Bool) (rs : List Request) (s : Streams)
    (n : ℕ)
    → Consecutive n rs
    → Rising 0 (base ++ s.ret) n
    → Rising 0 (base ++ (place_all ff copy rs s).ret) (n + length rs)
unfolding place_all
place_all-Rising base ff copy [] s n c h = subst (Rising 0 (base ++ s.ret)) (omega arith) h
place_all-Rising base ff copy (r ∷ rs) s n c h =
    subst (Rising 0 (base ++ (place_all ff copy rs (place ff copy r s)).ret)) (omega arith) (
      place_all-Rising base ff copy rs (place ff copy r s) (n + 1) c.1
        (place-Rising base ff copy r s n c.0 h))

pub get_streams_for_egress-Rising :
    (base : List VariantStream) (ff : Ffmpeg) (egress : List EgressType) (g : GroupedIngressStream)
    (copy : Bool) (dups : List (EgressEncoderConfig × ℕ)) (next : ℕ) (made : Streams × ℕ)
    → Rising 0 base next
    → get_streams_for_egress ff egress g copy dups next ≡ some made
    → Rising 0 (base ++ made.0.ret) made.1
unfolding get_streams_for_egress streams_of
get_streams_for_egress-Rising base ff egress g copy dups next made h =
    go (requests ff copy g egress next) (requests-Consecutive ff copy g egress next)
  where
    go :
        (rs : List Request)
        → Consecutive next rs
        → streams_of ff copy dups next rs ≡ some made
        → Rising 0 (base ++ made.0.ret) made.1
    go [] c e = cc
    go (r ∷ rs) c e =
        subst (λ m. Rising 0 (base ++ m.0.ret) m.1) (some_inj e)
          (place_all-Rising base ff copy (r ∷ rs)
            (record { ret = []; egress_map = []; dup_map = dups }) next c
            (subst (λ vs. Rising 0 vs next) (sym (append-nil base)) h))
