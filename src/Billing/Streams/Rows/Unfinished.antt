-- ===== src/Billing/Streams/Rows/Unfinished.antt =====
-- Where `check_streams` of crates/zap-stream/src/overseer.rs stops, and what it has not dealt with then.
use zap_stream_core.Prelude.{
  ℕ, ◌≡◌, sym, ap, Bool, true, false, Option, none, some, List, [], ◌∷◌, ◌==◌, if◌then◌else◌, arith,
}
use zap_stream_core.Billing.Tables.{UserStream}
use zap_stream_core.Billing.Ledger.Paid.{self_eq}
use zap_stream_core.Billing.Streams.Rows.{
  has_stream, is_dead, Round, CheckState, CheckError, invalid_uuid, publish_failed, check_one,
  go_on, check_each,
}
use zap_stream_core.Billing.Streams.Rows.Steps.{check_one-cases}

-- The streams from the one of the id on.
abbrev pub from : ℕ → List UserStream → List UserStream
from id [] = []
from id (s ∷ streams) = if s.id == id then s ∷ streams else from id streams

-- The streams that a check with this error has not dealt with.
abbrev pub left : Option CheckError → List UserStream → List UserStream
left none streams = []
left (some (invalid_uuid id)) streams = from id streams
left (some (publish_failed id)) streams = from id streams

has_from :
    (id k : ℕ) (streams : List UserStream)
    → has_stream id (from k streams) ≡ true
    → has_stream id streams ≡ true
has_from id k [] h = h
has_from id k (s ∷ streams) h = go (s.id == k) (has_from id k streams) h
  where
    go :
        (here : Bool)
        → (has_stream id (from k streams) ≡ true → has_stream id streams ≡ true)
        → has_stream id (if here then s ∷ streams else from k streams) ≡ true
        → has_stream id (s ∷ streams) ≡ true
    go true ih h = h
    go false ih h = ground (arith, ih h)

longer :
    (id k : ℕ) (s : UserStream) (streams : List UserStream)
    → has_stream id (from k streams) ≡ true
    → has_stream id (from k (s ∷ streams)) ≡ true
longer id k s streams h = go (s.id == k)
  where
    go : (here : Bool) → has_stream id (if here then s ∷ streams else from k streams) ≡ true
    go true = ground (arith, has_from id k streams h)
    go false = h

pub longer_left :
    (id : ℕ) (e : Option CheckError) (s : UserStream) (streams : List UserStream)
    → has_stream id (left e streams) ≡ true
    → has_stream id (left e (s ∷ streams)) ≡ true
longer_left id none s streams h = h
longer_left id (some (invalid_uuid k)) s streams h = longer id k s streams h
longer_left id (some (publish_failed k)) s streams h = longer id k s streams h

pub all_from : (s : UserStream) (streams : List UserStream) → from s.id (s ∷ streams) ≡ s ∷ streams
all_from s streams = ap (λ b. if b then s ∷ streams else from s.id streams) (sym (self_eq s.id))

-- Why a check stops before its end.
abbrev pub Stops : Round → Option CheckError → Type 0
Stops round none = Unit {0}
Stops round (some (invalid_uuid id)) = round.is_uuid id ≡ false
Stops round (some (publish_failed id)) =
    (is_dead round.status id ≡ false) × (round.live_published id ≡ false)

check_one-Stops :
    (now : ℕ) (round : Round) (r : UserStream) (c : CheckState)
    → Stops round (check_one now round r c).0
check_one-Stops now round r c =
    check_one-cases (λ x. Stops round x.0) now round r c (λ e. e) (λ _. tt) (λ _ _. tt)
      (λ alive failed. (alive, failed))

pub check_each-Stops :
    (now : ℕ) (round : Round) (streams : List UserStream) (c : CheckState)
    → Stops round (check_each now round streams c).0
unfolding check_each go_on
check_each-Stops now round [] c = tt
check_each-Stops now round (r ∷ streams) c =
    go (check_each-Stops now round streams) (check_one now round r c)
      (check_one-Stops now round r c)
  where
    go :
        ((d : CheckState) → Stops round (check_each now round streams d).0)
        → (x : Option CheckError × CheckState) → Stops round x.0
        → Stops round (go_on (check_each now round streams) x).0
    go ih (none, d) k = ih d
    go ih (some e, d) k = k
