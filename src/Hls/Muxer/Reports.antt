-- ===== src/Hls/Muxer/Reports.antt =====
-- What `mux_packet_to_all` of crates/core/src/mux/hls/mod.rs reports of the variants.
use zap_stream_core.Prelude.{
  ℕ, ◌+◌, ◌≡◌, refl, sym, ap, ◌∙◌, inl, inr, Bool, true, false, List, [], ◌∷◌, ◌++◌, append_assoc,
  append-nil,
}
use zap_stream_core.Hls.Segment.{EgressSegment, EgressResult, nothing}
use zap_stream_core.Hls.State.{HlsVariant, Env, Result, ok, err}
use zap_stream_core.Hls.Splitting.{Packet}
use zap_stream_core.Hls.Muxer.{Muxed, egress_result, reported, mux_variants}
use zap_stream_core.Hls.Muxer.Alone.{
  created_of, deleted_of, alone, result_of, reports, Extends, Fresh, put_first, mux_variants-cases,
}

-- What the loop from position `n` on has collected when it comes to its end.
abbrev pub Collects :
    (ℕ → Env) → Packet → ℕ → ℕ → Muxed → List HlsVariant → Result Muxed × List HlsVariant → Type 0
Collects env pkt id n acc variants (ok next, ws) =
    Fresh next
    × (next.created ≡ acc.created ++ reports created_of env pkt id n variants)
    × (next.deleted ≡ acc.deleted ++ reports deleted_of env pkt id n variants)
Collects env pkt id n acc variants (err e, ws) = Unit {0}

module _ (env : ℕ → Env) (pkt : Packet) (id : ℕ) where
  one_more :
      (part : EgressResult → List EgressSegment) (n : ℕ) (v w : HlsVariant) (result : EgressResult)
      (variants : List HlsVariant) (before between after : List EgressSegment)
      → alone (env n) pkt id v ≡ (ok result, w)
      → between ≡ before ++ part result
      → after ≡ between ++ reports part env pkt id (n + 1) variants
      → after ≡ before ++ reports part env pkt id n (v ∷ variants)
  one_more part n v w result variants before between after same extends collects =
      collects
      ∙ ap (λ xs. xs ++ reports part env pkt id (n + 1) variants) extends
      ∙ append_assoc before (part result) (reports part env pkt id (n + 1) variants)
      ∙ ap (λ r. before ++ (part (result_of r.0) ++ reports part env pkt id (n + 1) variants))
          (sym same)

  pub mux_variants-Collects :
      (n : ℕ) (acc : Muxed) (variants : List HlsVariant)
      → Fresh acc
      → Collects env pkt id n acc variants (mux_variants env pkt id n acc variants)
  unfolding mux_variants
  mux_variants-Collects n acc [] fresh =
      (fresh, sym (append-nil acc.created), sym (append-nil acc.deleted))
  mux_variants-Collects n acc (v ∷ variants) fresh =
      mux_variants-cases (Collects env pkt id n acc (v ∷ variants)) env pkt id n acc v variants
        fresh (λ e w same. tt)
        (λ result w next same extends next_fresh.
          go result w next same extends (mux_variants env pkt id (n + 1) next variants)
            (mux_variants-Collects (n + 1) next variants next_fresh))
    where
      go :
          (result : EgressResult) (w : HlsVariant) (next : Muxed)
          → alone (env n) pkt id v ≡ (ok result, w)
          → Extends acc result next
          → (r : Result Muxed × List HlsVariant) → Collects env pkt id (n + 1) next variants r
          → Collects env pkt id n acc (v ∷ variants) (put_first w r)
      go result w next same extends (err e, ws) h = tt
      go result w next same extends (ok last, ws) (last_fresh, created, deleted) = (
        last_fresh,
        one_more created_of n v w result variants acc.created next.created last.created same
            extends.0 created,
        one_more deleted_of n v w result variants acc.deleted next.deleted last.deleted same
            extends.1 deleted,
      )

created_of-reported :
    (created deleted : List EgressSegment)
    → (created_of (reported created deleted) ≡ created)
      × (deleted_of (reported created deleted) ≡ deleted)
unfolding reported
created_of-reported [] [] = (refl, refl)
created_of-reported [] (d ∷ deleted) = (refl, refl)
created_of-reported (c ∷ created) deleted = (refl, refl)

pub egress_result-parts :
    (acc : Muxed)
    → Fresh acc
    → (created_of (egress_result acc) ≡ acc.created)
      × (deleted_of (egress_result acc) ≡ acc.deleted)
unfolding egress_result
egress_result-parts acc (inl found) = rw found (created_of-reported acc.created acc.deleted)
egress_result-parts acc (inr (none_created, none_deleted)) = go acc.found
  where
    go :
        (found : Bool)
        → (created_of (elim found [ true ↦ reported acc.created acc.deleted | false ↦ nothing ])
            ≡ acc.created)
          × (deleted_of (elim found [ true ↦ reported acc.created acc.deleted | false ↦ nothing ])
              ≡ acc.deleted)
    go true = created_of-reported acc.created acc.deleted
    go false = (sym none_created, sym none_deleted)
