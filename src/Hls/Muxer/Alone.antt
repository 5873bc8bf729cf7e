-- ===== src/Hls/Muxer/Alone.antt =====
-- What a packet does to one variant of an `HlsMuxer`, and one round of the loop of `mux_packet_to_all`
-- in crates/core/src/mux/hls/mod.rs.
use zap_stream_core.Prelude.{
  ℕ, zero, suc, ◌+◌, ◌≡◌, refl, sym, true, ◌⊎◌, inl, Option, none, some, List, [], ◌∷◌, ◌++◌,
  append-nil, ◌==◌, find,
}
use zap_stream_core.Hls.Segment.{EgressSegment, EgressResult, nothing, segments}
use zap_stream_core.Hls.State.{HlsVariant, HlsVariantStream, stream_id, Env, Error, Result, ok, err}
use zap_stream_core.Hls.Splitting.{Packet, process_packet}
use zap_stream_core.Hls.Muxer.{Muxed, extend, after, mux_variants, stream_of}

abbrev pub get_elem? : List HlsVariant → ℕ → Option HlsVariant
get_elem? [] i = none
get_elem? (v ∷ variants) zero = some v
get_elem? (v ∷ variants) (suc i) = get_elem? variants i

abbrev pub created_of : EgressResult → List EgressSegment
created_of nothing = []
created_of (segments created deleted) = created

abbrev pub deleted_of : EgressResult → List EgressSegment
deleted_of nothing = []
deleted_of (segments created deleted) = deleted

-- What a packet does to one variant: nothing, when the variant does not have the packet's stream.
pub alone : Env → Packet → ℕ → HlsVariant → Result EgressResult × HlsVariant
alone env pkt id v = elim (find (λ s. stream_id s == id) v.streams) [
  | none ↦ (ok nothing, v)
  | some s ↦ process_packet env pkt s v
]

abbrev pub result_of : Result EgressResult → EgressResult
result_of (ok result) = result
result_of (err e) = nothing

abbrev pub Succeeds : Result EgressResult → Type 0
Succeeds (ok result) = Unit {0}
Succeeds (err e) = ⊥

-- What the variants from position `n` on report, one after the other.
abbrev pub reports :
    (EgressResult → List EgressSegment)
    → (ℕ → Env)
    → Packet
    → ℕ
    → ℕ
    → List HlsVariant
    → List EgressSegment
reports part env pkt id n [] = []
reports part env pkt id n (v ∷ variants) =
    part (result_of (alone (env n) pkt id v).0) ++ reports part env pkt id (n + 1) variants

-- What is collected when a variant has reported `result`.
abbrev pub Extends : Muxed → EgressResult → Muxed → Type 0
Extends acc result next =
    (next.created ≡ acc.created ++ created_of result)
    × (next.deleted ≡ acc.deleted ++ deleted_of result)

-- Nothing is collected before a variant is found.
abbrev pub Fresh : Muxed → Type 0
Fresh acc = (acc.found ≡ true) ⊎ ((acc.created ≡ []) × (acc.deleted ≡ []))

extend-Extends : (acc : Muxed) (result : EgressResult) → Extends acc result (extend result acc)
unfolding extend
extend-Extends acc nothing = (sym (append-nil acc.created), sym (append-nil acc.deleted))
extend-Extends acc (segments created deleted) = (refl, refl)

extend-Fresh : (acc : Muxed) (result : EgressResult) → Fresh (extend result acc)
unfolding extend
extend-Fresh acc nothing = inl refl
extend-Fresh acc (segments created deleted) = inl refl

abbrev pub put_first : HlsVariant → Result Muxed × List HlsVariant → Result Muxed × List HlsVariant
put_first w (r, ws) = (r, w ∷ ws)

pub mux_variants-cases :
    (P : Result Muxed × List HlsVariant → Type 0) (env : ℕ → Env) (pkt : Packet) (id n : ℕ)
    (acc : Muxed) (v : HlsVariant) (variants : List HlsVariant)
    → Fresh acc
    → ((e : Error) (w : HlsVariant) → alone (env n) pkt id v ≡ (err e, w) → P (err e, w ∷ variants))
    → ((result : EgressResult) (w : HlsVariant) (next : Muxed)
        → alone (env n) pkt id v ≡ (ok result, w)
        → Extends acc result next
        → Fresh next
        → P (put_first w (mux_variants env pkt id (n + 1) next variants)))
    → P (mux_variants env pkt id n acc (v ∷ variants))
unfolding mux_variants after alone stream_of
mux_variants-cases P env pkt id n acc v variants fresh failed went_on =
    go (find (λ x. stream_id x == id) v.streams) refl
  where
    ran :
        (s : HlsVariantStream)
        → find (λ x. stream_id x == id) v.streams ≡ some s
        → (r : Result EgressResult × HlsVariant) → process_packet (env n) pkt s v ≡ r
        → P (after acc variants (λ acc. mux_variants env pkt id (n + 1) acc variants) r)
    ran s found (err e, w) same = failed e w (rw (alone, found) same)
    ran s found (ok result, w) same =
        went_on result w (extend result acc) (rw (alone, found) same) (extend-Extends acc result)
          (extend-Fresh acc result)

    go :
        (o : Option HlsVariantStream)
        → find (λ x. stream_id x == id) v.streams ≡ o
        → P (elim o as (λ x. Result Muxed × List HlsVariant) [
          | none ↦ let (r, ws) = mux_variants env pkt id (n + 1) acc variants in (r, v ∷ ws)
          | some s ↦
              after acc variants
                (λ acc. mux_variants env pkt id (n + 1) acc variants)
                (process_packet (env n) pkt s v)
        ])
    go none e =
        went_on nothing v acc (rw (alone, e) refl)
          (sym (append-nil acc.created), sym (append-nil acc.deleted)) fresh
    go (some s) e = ran s e (process_packet (env n) pkt s v) refl
