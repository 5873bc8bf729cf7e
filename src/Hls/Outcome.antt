-- ===== src/Hls/Outcome.antt =====
-- Rules for the postconditions of the variant's methods: sequencing, a fallible call, weakening.
use zap_stream_core.Prelude.{Bool-cases, inl, inr}
use zap_stream_core.Hls.State.{
  HlsVariant, Env, IoStep, Error, io, M, Result, ok, err, ◌>>=◌, ◌>>◌, attempt, Outcome,
}

pub Outcome-bind :
    {A B : Type 0} (Q : A → HlsVariant → Type 0) (R : B → HlsVariant → Type 0)
    (E : Error → HlsVariant → Type 0) (m : M A) (f : A → M B) (v : HlsVariant)
    → Outcome Q E (m v)
    → ((a : A) (w : HlsVariant) → Q a w → Outcome R E (f a w))
    → Outcome R E ((m >>= f) v)
Outcome-bind {A} {B} Q R E m f v h k = go (m v) h
  where
    go :
        (r : Result A × HlsVariant)
        → Outcome Q E r
        → Outcome R E (let (x, w) = r in elim x [ ok a ↦ f a w | err e ↦ (err e, w) ])
    go (ok a, w) q = k a w q
    go (err e, w) q = q

pub Outcome-weaken :
    {A : Type 0} (Q R : A → HlsVariant → Type 0) (E F : Error → HlsVariant → Type 0)
    (r : Result A × HlsVariant)
    → Outcome Q E r
    → ((a : A) (w : HlsVariant) → Q a w → R a w)
    → ((e : Error) (w : HlsVariant) → E e w → F e w)
    → Outcome R F r
Outcome-weaken Q R E F (ok a, w) h q e = q a w h
Outcome-weaken Q R E F (err x, w) h q e = e x w h

pub Outcome-attempt :
    {B : Type 0} (R : B → HlsVariant → Type 0) (E : Error → HlsVariant → Type 0) (env : Env)
    (step : IoStep) (m : M B) (v : HlsVariant)
    → E (io step) v
    → Outcome R E (m v)
    → Outcome R E ((attempt env step >> m) v)
Outcome-attempt R E env step m v h k =
    Outcome-bind (λ _ w. Outcome R E (m w)) R E (attempt env step) (λ _. m) v
      (elim (Bool-cases (env.fails step)) [ inl e ↦ rw e h | inr e ↦ rw e k ]) (λ _ w q. q)
