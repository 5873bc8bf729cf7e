-- ===== src/Hls/Muxer/Delivery.antt =====
-- Which variants of an `HlsMuxer` a packet reaches, and what is reported of them
-- (`mux_packet_to_all` of crates/core/src/mux/hls/mod.rs).
use zap_stream_core.Prelude.{
  ℕ, zero, suc, ◌+◌, ◌≤◌, ◌<◌, ◌≡◌, refl, sym, ap, subst, ◌∙◌, ◌⊎◌, inl, inr, Option, none, some,
  some_inj, List, [], ◌∷◌, length, arith,
}
use zap_stream_core.Hls.Segment.{EgressResult}
use zap_stream_core.Hls.State.{HlsVariant, Env, Error, Result, ok, err}
use zap_stream_core.Hls.Splitting.{Packet}
use zap_stream_core.Hls.Muxer.{Muxed, egress_result, mux_variants, mux_packet_to_all, empty}
use zap_stream_core.Hls.Muxer.Alone.{
  get_elem?, created_of, deleted_of, alone, Succeeds, reports, Fresh, put_first, mux_variants-cases,
}
use zap_stream_core.Hls.Muxer.Reports.{Collects, mux_variants-Collects, egress_result-parts}

module _ (env : ℕ → Env) (pkt : Packet) (id : ℕ) where
  -- What becomes of a variant `v` at place `i`, with the packet's things of `env m`: in a loop that
  -- has come to its end, and in one that has failed at place `k`.
  abbrev pub Treats : Option ℕ → ℕ → ℕ → HlsVariant → List HlsVariant → Type 0
  Treats none m i v ws =
      (get_elem? ws i ≡ some (alone (env m) pkt id v).1) × Succeeds (alone (env m) pkt id v).0
  Treats (some k) m i v ws =
      ((k < i × (get_elem? ws i ≡ some v))
        ⊎ (i ≤ k × (get_elem? ws i ≡ some (alone (env m) pkt id v).1)))
      × (k ≤ i ⊎ Succeeds (alone (env m) pkt id v).0)

  -- The variant at place `k` fails with `e`.
  abbrev pub FailsAt : ℕ → List HlsVariant → ℕ → Error → Type 0
  FailsAt m variants k e =
      (f : HlsVariant) × (get_elem? variants k ≡ some f) × ((alone (env m) pkt id f).0 ≡ err e)

  abbrev Places : Option ℕ → ℕ → List HlsVariant → List HlsVariant → Type 0
  Places stop n variants ws =
      (i : ℕ) (v : HlsVariant) → get_elem? variants i ≡ some v → Treats stop (n + i) i v ws

  abbrev Delivers : ℕ → List HlsVariant → Result Muxed × List HlsVariant → Type 0
  Delivers n variants (ok next, ws) = (length ws ≡ length variants) × Places none n variants ws
  Delivers n variants (err e, ws) =
      (length ws ≡ length variants)
      × (k : ℕ) × FailsAt (n + k) variants k e
      × Places (some k) n variants ws

  here : (n : ℕ) → n ≡ n + 0
  here n = omega arith

  shift : (n j : ℕ) → n + 1 + j ≡ n + suc j
  shift n j = omega arith

  at_head :
      (stop : Option ℕ) (n : ℕ) (v w x : HlsVariant) (ws : List HlsVariant)
      → Treats stop n 0 v (w ∷ ws)
      → some v ≡ some x
      → Treats stop (n + 0) 0 x (w ∷ ws)
  at_head stop n v w x ws h e =
      subst (λ y. Treats stop (n + 0) 0 y (w ∷ ws)) (some_inj e)
        (subst (λ m. Treats stop m 0 v (w ∷ ws)) (here n) h)

  later :
      (stop : Option ℕ) (m j : ℕ) (v w : HlsVariant) (ws : List HlsVariant)
      → Treats stop m j v ws
      → Treats (elim stop [ none ↦ none | some k ↦ some (suc k) ]) m (suc j) v (w ∷ ws)
  later none m j v w ws h = h
  later (some k) m j v w ws (place, good) = (moved place, earlier good)
    where
      moved :
          ((k < j × (get_elem? ws j ≡ some v))
            ⊎ (j ≤ k × (get_elem? ws j ≡ some (alone (env m) pkt id v).1)))
          → ((suc k < suc j × (get_elem? ws j ≡ some v))
              ⊎ (suc j ≤ suc k × (get_elem? ws j ≡ some (alone (env m) pkt id v).1)))
      moved (inl (lt, e)) = inl (omega arith, e)
      moved (inr (le, e)) = inr (omega arith, e)

      earlier :
          (k ≤ j ⊎ Succeeds (alone (env m) pkt id v).0)
          → (suc k ≤ suc j ⊎ Succeeds (alone (env m) pkt id v).0)
      earlier (inl le) = inl (omega arith)
      earlier (inr s) = inr s

  mux_variants-Delivers :
      (n : ℕ) (acc : Muxed) (variants : List HlsVariant)
      → Fresh acc
      → Delivers n variants (mux_variants env pkt id n acc variants)
  unfolding mux_variants
  mux_variants-Delivers n acc [] fresh = (refl, λ i v e. absurd (no_place e))
    where
      no_place : {v : HlsVariant} → none ≡ some v → ⊥
      no_place e = cc
  mux_variants-Delivers n acc (v ∷ variants) fresh =
      mux_variants-cases (Delivers n (v ∷ variants)) env pkt id n acc v variants fresh failed
        (λ result w next same extends next_fresh.
          go result w same (mux_variants env pkt id (n + 1) next variants)
            (mux_variants-Delivers (n + 1) next variants next_fresh))
    where
      failed :
          (e : Error) (w : HlsVariant)
          → alone (env n) pkt id v ≡ (err e, w)
          → Delivers n (v ∷ variants) (err e, w ∷ variants)
      failed e w same = (
        refl,
        0,
        (v, refl, ap (λ m. (alone (env m) pkt id v).0) (sym (here n)) ∙ ap (λ r. r.0) same),
        places,
      )
        where
          places : Places (some 0) n (v ∷ variants) (w ∷ variants)
          places zero x e =
              at_head (some 0) n v w x variants
                (inr (omega arith, ap some (sym (ap (λ r. r.1) same))), inl (omega arith)) e
          places (suc j) x e = (inl (omega arith, e), inl (omega arith))

      succeeded :
          (result : EgressResult) (w : HlsVariant)
          → alone (env n) pkt id v ≡ (ok result, w)
          → Succeeds (alone (env n) pkt id v).0
      succeeded result w same = subst (λ r. Succeeds r.0) (sym same) tt

      go :
          (result : EgressResult) (w : HlsVariant)
          → alone (env n) pkt id v ≡ (ok result, w)
          → (r : Result Muxed × List HlsVariant) → Delivers (n + 1) variants r
          → Delivers n (v ∷ variants) (put_first w r)
      go result w same (ok last, ws) (long, rest) = (ap suc long, places)
        where
          places : Places none n (v ∷ variants) (w ∷ ws)
          places zero x e =
              at_head none n v w x ws (ap some (sym (ap (λ r. r.1) same)), succeeded result w same)
                e
          places (suc j) x e =
              later none (n + suc j) j x w ws
                (subst (λ m. Treats none m j x ws) (shift n j) (rest j x e))
      go result w same (err e, ws) (long, k, (f, at, why), rest) = (
        ap suc long,
        suc k,
        (f, at, ap (λ m. (alone (env m) pkt id f).0) (sym (shift n k)) ∙ why),
        places,
      )
        where
          places : Places (some (suc k)) n (v ∷ variants) (w ∷ ws)
          places zero x e =
              at_head (some (suc k)) n v w x ws
                (
                  inr (omega arith, ap some (sym (ap (λ r. r.1) same))),
                  inr (succeeded result w same),
                )
                e
          places (suc j) x e =
              later (some k) (n + suc j) j x w ws
                (subst (λ m. Treats (some k) m j x ws) (shift n j) (rest j x e))

  -- Every variant is treated as it would be alone and no variant fails, and the result has what each
  -- reports, in order; or the error is that of the variant at place `k`, the variants up to it are treated
  -- as they would be alone, those before it do not fail, and those behind it are left as they were.
  abbrev pub Broadcasts :
      List HlsVariant → ℕ → HlsVariant → Result EgressResult × List HlsVariant → Type 0
  Broadcasts variants i v (ok result, ws) =
      (length ws ≡ length variants)
      × Treats none i i v ws
      × (created_of result ≡ reports created_of env pkt id 0 variants)
      × (deleted_of result ≡ reports deleted_of env pkt id 0 variants)
  Broadcasts variants i v (err e, ws) =
      (length ws ≡ length variants) × (k : ℕ) × FailsAt k variants k e × Treats (some k) i i v ws

  -- A packet muxed into all variants that have its stream. When that succeeds, each of the variants is as
  -- the packet alone makes it, a variant without the stream is as it was, none has failed, and the segments
  -- reported as created and deleted are those that the variants report, in their order. When it fails,
  -- the error is that of a variant; those before it have not failed and are, as it is itself, as the packet
  -- alone makes them, and those behind it are as they were. There are as many variants as before.
  pub mux_packet_to_all-Broadcasts :
      (variants : List HlsVariant) (i : ℕ) (v : HlsVariant)
      → get_elem? variants i ≡ some v
      → Broadcasts variants i v (mux_packet_to_all env pkt id variants)
  unfolding mux_packet_to_all empty
  mux_packet_to_all-Broadcasts variants i v at =
      go (mux_variants env pkt id 0 empty variants) (mux_variants-Delivers 0 empty variants start)
        (mux_variants-Collects env pkt id 0 empty variants start)
    where
      start : Fresh empty
      start = inr (refl, refl)

      from_zero : (n : ℕ) → 0 + n ≡ n
      from_zero n = omega arith

      go :
          (r : Result Muxed × List HlsVariant)
          → Delivers 0 variants r
          → Collects env pkt id 0 empty variants r
          → Broadcasts variants i v
              (elim r.0 [ ok acc ↦ ok (egress_result acc) | err e ↦ err e ], r.1)
      go (ok acc, ws) (long, places) (fresh, created, deleted) =
          let parts = egress_result-parts acc fresh in
          (
            long,
            subst (λ m. Treats none m i v ws) (from_zero i) (places i v at),
            parts.0 ∙ created,
            parts.1 ∙ deleted,
          )
      go (err e, ws) (long, k, fails, places) collects = (
        long,
        k,
        subst (λ m. FailsAt m variants k e) (from_zero k) fails,
        subst (λ m. Treats (some k) m i v ws) (from_zero i) (places i v at),
      )
