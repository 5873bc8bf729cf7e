-- ===== src/Endpoint/Grouping/Encoded.antt =====
-- The heights of the variants that `get_streams_for_egress` of crates/core/src/endpoint.rs makes.
use zap_stream_core.Prelude.{
  ℕ, ◌≡◌, refl, subst, Bool, true, false, Option, none, some, List, [], ◌∷◌, some_inj, All, All-++,
}
use zap_stream_core.Pipeline.Variants.{StreamType, Ffmpeg, VariantStream}
use zap_stream_core.Pipeline.Encoders.{EgressEncoderConfig, EgressType}
use zap_stream_core.Endpoint.Grouping.{
  GroupedIngressStream, Request, requests, Streams, find_config, video_config, new_variant,
  insert_new, place_at, place, place_all, streams_of, get_streams_for_egress,
}

-- A variant that is encoded, not copied, has a height with the property.
abbrev pub Encoded : (ℕ → Type 0) → VariantStream → Type 0
Encoded P (VariantStream.video v) = P v.height
Encoded P (VariantStream.copy_video v) = Unit {0}
Encoded P (VariantStream.audio a) = Unit {0}
Encoded P (VariantStream.copy_audio a) = Unit {0}
Encoded P (VariantStream.subtitle id src_index) = Unit {0}
Encoded P (VariantStream.plugin id src_index) = Unit {0}

module _ (P : ℕ → Type 0) (ff : Ffmpeg) (copy : Bool) where
  abbrev pub Wants : Request → Type 0
  Wants r = copy ≡ false → r.param.stream_type ≡ StreamType.video → P (video_config ff r).height

  new_variant-Encoded :
      (r : Request) (v : VariantStream)
      → Wants r
      → new_variant ff copy r r.param.stream_type ≡ some v
      → Encoded P v
  unfolding new_variant
  new_variant-Encoded r v wants = go r.param.stream_type refl copy refl
    where
      go :
          (t : StreamType)
          → r.param.stream_type ≡ t
          → (b : Bool) → copy ≡ b
          → new_variant ff b r t ≡ some v
          → Encoded P v
      go StreamType.video k true c e = subst (Encoded P) (some_inj e) tt
      go StreamType.video k false c e = subst (Encoded P) (some_inj e) (wants c k)
      go StreamType.audio k b c e = subst (Encoded P) (some_inj e) tt
      go StreamType.subtitle k b c e = cc
      go StreamType.unknown k b c e = cc

  place-Encoded :
      (r : Request) (s : Streams)
      → Wants r
      → All (Encoded P) s.ret
      → All (Encoded P) (place ff copy r s).ret
  unfolding place place_at insert_new
  place-Encoded r s wants h = at (find_config r.param s.dup_map)
    where
      new :
          (o : Option VariantStream)
          → new_variant ff copy r r.param.stream_type ≡ o
          → All (Encoded P) (insert_new o r s).ret
      new none e = h
      new (some v) e = All-++ (Encoded P) s.ret (v ∷ []) h (new_variant-Encoded r v wants e, tt)

      at : (o : Option ℕ) → All (Encoded P) (place_at ff copy r o s).ret
      at none = new (new_variant ff copy r r.param.stream_type) refl
      at (some held) = h

  place_all-Encoded :
      (rs : List Request) (s : Streams)
      → All Wants rs
      → All (Encoded P) s.ret
      → All (Encoded P) (place_all ff copy rs s).ret
  unfolding place_all
  place_all-Encoded [] s wants h = h
  place_all-Encoded (r ∷ rs) s wants h =
      place_all-Encoded rs (place ff copy r s) wants.1 (place-Encoded r s wants.0 h)

  pub get_streams_for_egress-Encoded :
      (egress : List EgressType) (g : GroupedIngressStream) (dups : List (EgressEncoderConfig × ℕ))
      (next : ℕ) (made : Streams × ℕ)
      → All Wants (requests ff copy g egress next)
      → get_streams_for_egress ff egress g copy dups next ≡ some made
      → All (Encoded P) made.0.ret
  unfolding get_streams_for_egress streams_of
  get_streams_for_egress-Encoded egress g dups next made = go (requests ff copy g egress next)
    where
      go :
          (rs : List Request)
          → All Wants rs
          → streams_of ff copy dups next rs ≡ some made
          → All (Encoded P) made.0.ret
      go [] wants e = cc
      go (r ∷ rs) wants e =
          subst (λ m. All (Encoded P) m.0.ret) (some_inj e)
            (place_all-Encoded (r ∷ rs) (record { ret = []; egress_map = []; dup_map = dups }) wants
              tt)
