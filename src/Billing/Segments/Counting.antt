-- ===== src/Billing/Segments/Counting.antt =====
-- The warnings among the effects of one batch of segments, in crates/zap-stream/src/overseer.rs, and
-- what a batch does to the balance.
use zap_stream_core.Prelude.{
  ℕ, ◌+◌, ◌*◌, ◌≡◌, refl, sym, ap, ◌∙◌, Bool, true, false, not, ◌&&◌, Option, none, some, List, [],
  ◌∷◌, ◌++◌, ◌==◌, if◌then◌else◌, arith,
}
use zap_stream_core.Prelude.Int.{ℤ, pos, ◌+ℤ◌, ◌-ℤ◌, ◌≤ℤ◌, ltb_ℤ, leb_ℤ, int_laws}
use zap_stream_core.Hls.Segment.{EgressSegment}
use zap_stream_core.Billing.Tables.{User, UserStream, ZapStreamDb, stream_by_id, update_user}
use zap_stream_core.Billing.Ledger.{charged, add_balance, has_user}
use zap_stream_core.Billing.Ledger.Paid.{balance_of, balance_of-add, self_eq}
use zap_stream_core.Billing.Ledger.Charges.{free_is_zero}
use zap_stream_core.Billing.Segments.{
  Overseer, Billed, Effect, start_nwc_topup, low_balance, new_segment, deleted_segment,
  after_charge, crossed, warn_low_balance, auto_topup, announce, nwc_topup_amount, is_some,
  has_request,
}

-- The number of warnings among the effects.
unfoldable pub warnings : List Effect → ℕ
warnings [] = 0
warnings (start_nwc_topup uid ∷ effects) = warnings effects
warnings (low_balance uid id ∷ effects) = 1 + warnings effects
warnings (new_segment added ∷ effects) = warnings effects
warnings (deleted_segment deleted ∷ effects) = warnings effects

warnings-++ : (xs ys : List Effect) → warnings (xs ++ ys) ≡ warnings xs + warnings ys
unfolding warnings
warnings-++ [] ys = omega arith
warnings-++ (start_nwc_topup uid ∷ xs) ys = warnings-++ xs ys
warnings-++ (low_balance uid id ∷ xs) ys = omega (arith, warnings-++ xs ys)
warnings-++ (new_segment added ∷ xs) ys = warnings-++ xs ys
warnings-++ (deleted_segment deleted ∷ xs) ys = warnings-++ xs ys

auto_topup-warnings : (u : User) (requests : List ℕ) → warnings (auto_topup u requests).1 ≡ 0
unfolding warnings auto_topup
auto_topup-warnings u requests =
    go (ltb_ℤ u.balance (pos nwc_topup_amount) && is_some u.nwc && not (has_request u.id requests))
  where
    go :
        (b : Bool)
        → warnings
            (if◌then◌else◌ {A = List ℕ × List Effect} b
              (u.id ∷ requests, start_nwc_topup u.id ∷ [])
              (requests, [])).1
          ≡ 0
    go true = refl
    go false = refl

abbrev pub warned_by : Option ℕ → ℤ → ℕ → ℕ
warned_by none bal cost = 0
warned_by (some threshold) bal cost = if crossed threshold bal cost then 1 else 0

warn_low_balance-warnings :
    (threshold : Option ℕ) (uid id : ℕ) (bal : ℤ) (cost : ℕ)
    → warnings (warn_low_balance threshold uid id bal cost) ≡ warned_by threshold bal cost
unfolding warnings warn_low_balance
warn_low_balance-warnings none uid id bal cost = refl
warn_low_balance-warnings (some threshold) uid id bal cost = go (crossed threshold bal cost)
  where
    go : (b : Bool) → warnings (if b then low_balance uid id ∷ [] else []) ≡ (if b then 1 else 0)
    go true = refl
    go false = refl

only_second : (w a b n : ℕ) → w ≡ a + b → a ≡ 0 → b ≡ n → w ≡ n
only_second w a b n h e f = omega (arith, h, e, f)

only_first : (w a b n : ℕ) → w ≡ a + b → b ≡ 0 → a ≡ n → w ≡ n
only_first w a b n h e f = omega (arith, h, e, f)

pub announce-warnings :
    (n94 : Bool) (added deleted : List EgressSegment) → warnings (announce n94 added deleted) ≡ 0
unfolding warnings
announce-warnings true added deleted = refl
announce-warnings false added deleted = refl

-- A charged batch warns when the balance crosses the threshold, and only then.
pub after_charge-warnings :
    (added deleted : List EgressSegment) (stream : UserStream) (u : User) (bal : ℤ) (cost : ℕ)
    (o : Overseer)
    → warnings (after_charge added deleted stream (some u) bal cost o).effects
      ≡ warned_by o.low_balance_threshold bal cost
unfolding after_charge warnings
after_charge-warnings added deleted stream u bal cost o = go (leb_ℤ bal (pos 0))
  where
    own : List Effect
    own =
        (auto_topup u o.nwc_topup_requests).1
        ++ warn_low_balance o.low_balance_threshold u.id stream.id bal cost

    counted : warnings own ≡ warned_by o.low_balance_threshold bal cost
    counted =
        only_second (warnings own) (warnings (auto_topup u o.nwc_topup_requests).1) _ _
          (warnings-++ (auto_topup u o.nwc_topup_requests).1
            (warn_low_balance o.low_balance_threshold u.id stream.id bal cost))
          (auto_topup-warnings u o.nwc_topup_requests)
          (warn_low_balance-warnings o.low_balance_threshold u.id stream.id bal cost)

    go :
        (over : Bool)
        → warnings (if over then own else own ++ announce o.n94 added deleted)
          ≡ warned_by o.low_balance_threshold bal cost
    go true = counted
    go false =
        only_first (warnings (own ++ announce o.n94 added deleted)) (warnings own) _ _
          (warnings-++ own (announce o.n94 added deleted)) (announce-warnings o.n94 added deleted)
          counted

-- One warning when the balance was above the threshold and is not any more, none otherwise.
abbrev pub crosses : Option ℕ → ℤ → ℤ → ℕ
crosses none before after = 0
crosses (some t) before after =
    if ltb_ℤ (pos (t * 1000)) before && leb_ℤ after (pos (t * 1000)) then 1 else 0

-- What one batch of a user's stream does: keep the threshold and the stream's owner, not raise the
-- balance, and warn when it crosses the threshold.
abbrev pub Quiet : Option ℕ → ℤ → ℤ → ℕ → Type 0
Quiet threshold before after n = (n ≡ crosses threshold before after) × (after ≤ℤ before)

abbrev pub Steps : ℕ → ℕ → Overseer → Billed → Type 0
Steps uid id o r =
    (r.overseer.low_balance_threshold ≡ o.low_balance_threshold)
    × ((s : UserStream) × (stream_by_id id r.overseer.db.streams ≡ some s) × (s.user_id ≡ uid))
    × Quiet o.low_balance_threshold (balance_of uid o.db.users) (balance_of uid r.overseer.db.users)
        (warnings r.effects)

lower : (before after : ℤ) (cost : ℕ) → after ≡ before +ℤ (pos 0 -ℤ pos cost) → after ≤ℤ before
lower before after cost e = grind (int_laws, e)

back :
    (before after : ℤ) (cost : ℕ)
    → after ≡ before +ℤ (pos 0 -ℤ pos cost)
    → after +ℤ pos cost ≡ before
back before after cost e = grind (int_laws, e)

same_crosses : (t : ℕ) (b : ℤ) → 0 ≡ crosses (some t) b b
same_crosses t b = ground arith

pub unmoved : (threshold : Option ℕ) (b : ℤ) → Quiet threshold b b 0
unmoved none b = (refl, omega arith)
unmoved (some t) b = (same_crosses t b, omega arith)

pub warned-Quiet :
    (threshold : Option ℕ) (before after : ℤ) (cost n : ℕ)
    → after ≡ before +ℤ (pos 0 -ℤ pos cost)
    → n ≡ warned_by threshold after cost
    → Quiet threshold before after n
unfolding crossed
warned-Quiet none before after cost n e h = (h, lower before after cost e)
warned-Quiet (some t) before after cost n e h = (
  h
      ∙ ap (λ z. if ltb_ℤ (pos (t * 1000)) z && leb_ℤ after (pos (t * 1000)) then 1 else 0)
          (back before after cost e),
  lower before after cost e,
)

pub not_added : (b : ℤ) (cost : ℕ) → pos cost ≡ pos 0 → b ≡ b +ℤ (pos 0 -ℤ pos cost)
not_added b cost e = grind (int_laws, e)

own_when : (uid : ℕ) (b d : ℤ) → b +ℤ (if uid == uid then d else pos 0) ≡ b +ℤ d
own_when uid b d = ap (λ x. b +ℤ (if x then d else pos 0)) (sym (self_eq uid))

pub charged-balance :
    (id uid : ℕ) (duration : ℤ) (cost : ℕ) (db : ZapStreamDb)
    → has_user uid db.users ≡ true
    → balance_of uid (charged id uid duration (pos cost) db).users
      ≡ balance_of uid db.users +ℤ (pos 0 -ℤ pos cost)
unfolding charged
charged-balance id uid duration cost db there = go (ltb_ℤ (pos 0) (pos cost)) refl
  where
    go :
        (paid : Bool)
        → ltb_ℤ (pos 0) (pos cost) ≡ paid
        → balance_of uid
            (if paid then update_user uid (add_balance (pos 0 -ℤ pos cost)) db.users else db.users)
          ≡ balance_of uid db.users +ℤ (pos 0 -ℤ pos cost)
    go true e =
        balance_of-add uid uid (pos 0 -ℤ pos cost) db.users there
        ∙ own_when uid (balance_of uid db.users) (pos 0 -ℤ pos cost)
    go false e = not_added (balance_of uid db.users) cost (free_is_zero (pos cost) (omega arith) e)
