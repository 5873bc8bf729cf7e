-- ===== src/Hls/Window/Cleaning.antt =====
-- `clean_segments` of crates/core/src/mux/hls/variant.rs on a list in sequence: it keeps the newest
-- full segments that cover the window, and one more.
use mathlib.Core.List.{reverse-append, reverse-cons, reverse-reverse}
use zap_stream_core.Prelude.{
  ℕ, suc, ◌≡◌, refl, sym, ap, subst, ◌∙◌, ◌⊎◌, inl, inr, List, [], ◌∷◌, ◌++◌, none, some, retain,
  reverse, append_assoc, Option-cases,
}
use zap_stream_core.Prelude.Int.{ℤ, pos, ◌+ℤ◌, ◌≤ℤ◌, int_laws}
use zap_stream_core.Hls.Segment.{HlsSegment, full, partial, SegmentInfo, is_full}
use zap_stream_core.Hls.State.{HlsVariant, Env}
use zap_stream_core.Hls.Window.{drain_from, position, drain_pos, full_segments, clean_segments}
use zap_stream_core.Hls.Window.Retention.{
  total, total-reverse, Split, drain_from-Split, drain_from-none, Run, Run-retain, Run-split, Place,
  position-Place, position-full,
}
use zap_stream_core.Hls.Sequence.{Sequence}

-- A prefix of the list goes, and its full segments are reported. What is kept begins with a full
-- segment; those behind it cover the window, and do not without the oldest of them.
pub record Slides (v w : HlsVariant) (removed : List SegmentInfo) : Type 0 where
  pub dropped : List HlsSegment
  pub oldest : SegmentInfo
  pub rest : List HlsSegment
  pub parts : v.segments ≡ dropped ++ full oldest ∷ rest
  pub kept : w.segments ≡ full oldest ∷ rest
  pub reported : removed ≡ full_segments dropped
  pub covers : v.segment_window ≤ℤ total (retain is_full rest)
  pub tight :
      (s : HlsSegment) (newer : List HlsSegment)
      → retain is_full rest ≡ s ∷ newer
      → ¬ (v.segment_window ≤ℤ total newer)

-- Nothing goes: the full segments behind the oldest one do not cover the window.
pub record Rests (v w : HlsVariant) (removed : List SegmentInfo) : Type 0 where
  pub same : w ≡ v
  unreported : removed ≡ []
  short :
      (s : HlsSegment) (newer : List HlsSegment)
      → retain is_full v.segments ≡ s ∷ newer
      → ¬ (v.segment_window ≤ℤ total newer)

retain-append :
    (xs ys : List HlsSegment) → retain is_full (xs ++ ys) ≡ retain is_full xs ++ retain is_full ys
retain-append [] ys = refl
retain-append (full s ∷ xs) ys = ap (◌∷◌ (full s)) (retain-append xs ys)
retain-append (partial p ∷ xs) ys = retain-append xs ys

reverse_swap : (xs ys : List HlsSegment) → reverse xs ≡ ys → xs ≡ reverse ys
reverse_swap xs ys e = sym (reverse-reverse xs) ∙ ap reverse e

reverse-middle :
    (xs ys : List HlsSegment) (s : HlsSegment)
    → reverse (xs ++ s ∷ ys) ≡ reverse ys ++ s ∷ reverse xs
reverse-middle xs ys s =
    reverse-append xs (s ∷ ys)
    ∙ ap (λ zs. zs ++ reverse xs) (reverse-cons s ys)
    ∙ append_assoc (reverse ys) (s ∷ []) (reverse xs)

full_of_Run :
    (n : ℕ) (xs : List HlsSegment) (s : HlsSegment) (ys : List HlsSegment)
    → Run n (xs ++ s ∷ ys)
    → (t : SegmentInfo) × (s ≡ full t)
full_of_Run n [] (full t) ys r = (t, refl)
full_of_Run n [] (partial p) ys r = absurd r
full_of_Run n (full x ∷ xs) s ys r = full_of_Run (suc n) xs s ys r.1
full_of_Run n (partial x ∷ xs) s ys r = absurd r

-- The search over the reversed full segments, read forwards.
record Found (window : ℤ) (fulls : List HlsSegment) : Type 0 where
  oldest : SegmentInfo
  newer : List HlsSegment
  older : List HlsSegment
  parts : fulls ≡ older ++ full oldest ∷ newer
  covers : window ≤ℤ total newer
  tight : (s : HlsSegment) (rest : List HlsSegment) → newer ≡ s ∷ rest → ¬ (window ≤ℤ total rest)

from_zero : (window a b : ℤ) → window ≤ℤ pos 0 +ℤ a → a ≡ b → window ≤ℤ b
from_zero window a b h e = rw (← e) (omega (int_laws, h))

to_zero : (window a b : ℤ) → window ≤ℤ a → b ≡ a → window ≤ℤ pos 0 +ℤ b
to_zero window a b h e = rw e (omega (int_laws, h))

found :
    (window : ℤ) (n : ℕ) (fulls : List HlsSegment) (s : HlsSegment)
    → Run n fulls
    → Split window (pos 0) (reverse fulls) s
    → (f : Found window fulls) × (full f.oldest ≡ s)
found window n fulls s run sp = (
  record {
    oldest = t.0;
    newer = reverse sp.newer;
    older = reverse sp.older;
    parts = parts ∙ ap (λ x. reverse sp.older ++ x ∷ reverse sp.newer) t.1;
    covers = from_zero window (total sp.newer) _ sp.covers (sym (total-reverse sp.newer));
    tight = λ x rest e k.
        sp.tight (reverse rest) x (reverse_swap sp.newer (x ∷ rest) e ∙ reverse-cons x rest)
          (to_zero window (total rest) _ k (total-reverse rest));
  },
  sym t.1,
)
  where
    parts : fulls ≡ reverse sp.older ++ s ∷ reverse sp.newer
    parts = reverse_swap fulls _ sp.split ∙ reverse-middle sp.newer sp.older s

    t : (t : SegmentInfo) × (s ≡ full t)
    t = full_of_Run n (reverse sp.older) s (reverse sp.newer) (subst (Run n) parts run)

-- The place of the segment found, in the whole list.
slides :
    (env : Env) (v : HlsVariant) (n k : ℕ) (f : Found v.segment_window (retain is_full v.segments))
    → Run n (retain is_full v.segments)
    → drain_pos v.segment_window v.segments ≡ some k
    → Place (full f.oldest) v.segments k
    → Slides v (clean_segments env v).1 (clean_segments env v).0
unfolding clean_segments
slides env v n k f run e p =
    rw (e, clean_segments)
      (record {
        dropped = p.before;
        oldest = f.oldest;
        rest = p.after;
        parts = p.place;
        kept = p.left;
        reported = ap full_segments p.taken;
        covers = subst (λ xs. v.segment_window ≤ℤ total xs) (sym same) f.covers;
        tight = λ s newer h. f.tight s newer (sym same ∙ h);
      })
  where
    spread :
        retain is_full v.segments
        ≡ retain is_full p.before ++ full f.oldest ∷ retain is_full p.after
    spread = ap (retain is_full) p.place ∙ retain-append p.before (full f.oldest ∷ p.after)

    same : retain is_full p.after ≡ f.newer
    same =
        Run-split n f.oldest (retain is_full p.before) (retain is_full p.after) f.older f.newer
          (subst (Run n) spread run) (sym spread ∙ f.parts)

rests :
    (env : Env) (v : HlsVariant)
    → drain_from v.segment_window (pos 0) (reverse (retain is_full v.segments)) ≡ none
    → Rests v (clean_segments env v).1 (clean_segments env v).0
unfolding clean_segments drain_pos
rests env v e =
    rw (e, clean_segments, drain_pos)
      (record {
        same = refl;
        unreported = refl;
        short = λ s newer h k.
            drain_from-none v.segment_window (pos 0) (reverse newer) s []
              (ap (drain_from v.segment_window (pos 0)) (sym (ap reverse h ∙ reverse-cons s newer))
                ∙ e)
              (to_zero v.segment_window (total newer) _ k (total-reverse newer));
      })

drain_pos-some :
    (v : HlsVariant) (s : HlsSegment) (t : SegmentInfo) (k : ℕ)
    → drain_from v.segment_window (pos 0) (reverse (retain is_full v.segments)) ≡ some s
    → s ≡ full t
    → position (full t) v.segments ≡ some k
    → drain_pos v.segment_window v.segments ≡ some k
unfolding drain_pos
drain_pos-some v s t k e same at = rw (e, drain_pos) (rw same at)

-- On a list in sequence, `clean_segments` either drops a prefix, such that the full segments behind
-- the oldest one kept cover the window and no fewer of them do, and reports exactly the full
-- segments dropped; or it changes and reports nothing, since the full segments behind the oldest
-- one do not cover the window.
pub clean_segments-Slides :
    (env : Env) (v : HlsVariant)
    → Sequence v.segments v.idx
    → Slides v (clean_segments env v).1 (clean_segments env v).0
      ⊎ Rests v (clean_segments env v).1 (clean_segments env v).0
clean_segments-Slides env v (n, h) =
    elim (Option-cases
      (drain_from v.segment_window (pos 0) (reverse (retain is_full v.segments)))) [
        | inl e ↦ inr (rests env v e)
        | inr (s, e) ↦
            let run : Run n (retain is_full v.segments) = Run-retain n v.idx v.segments h in
            let (f, same) = found v.segment_window n (retain is_full v.segments) s run (
              drain_from-Split v.segment_window (pos 0) (reverse (retain is_full v.segments)) s
                e) in
            let (k, at) = position-full f.oldest v.segments f.older f.newer f.parts in
            inl (
              slides env v n k f run (drain_pos-some v s f.oldest k e (sym same) at)
                (position-Place (full f.oldest) v.segments k at))
      ]
