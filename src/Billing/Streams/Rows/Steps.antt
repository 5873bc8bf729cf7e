-- ===== src/Billing/Streams/Rows/Steps.antt =====
-- The outcomes of one round of the loop of `check_streams`, crates/zap-stream/src/overseer.rs.
use zap_stream_core.Prelude.{
  ℕ, ◌≡◌, refl, Bool, true, false, not, ◌&&◌, ◌/◌, Option, none, some, ◌==◌, if◌then◌else◌,
}
use zap_stream_core.Billing.Tables.{UserStream}
use zap_stream_core.Billing.Ledger.{has_user}
use zap_stream_core.Billing.Streams.Rows.{
  is_dead, Round, CheckState, CheckError, invalid_uuid, publish_failed, is_publish_due, republish,
  end_dead, check_one,
}

pub check_one-cases :
    (P : Option CheckError × CheckState → Type 0) (now : ℕ) (round : Round) (s : UserStream)
    (c : CheckState)
    → (round.is_uuid s.id ≡ false → P (some (invalid_uuid s.id), c))
    → (is_dead round.status s.id ≡ true → P (none, end_dead now round s c))
    → (is_dead round.status s.id ≡ false
        → (published : ℕ → Option ℕ) → P (none, record c { last_event_publish = published }))
    → (is_dead round.status s.id ≡ false
        → round.live_published s.id ≡ false
        → P (some (publish_failed s.id), c))
    → P (check_one now round s c)
unfolding check_one republish
check_one-cases P now round s c unparsed gone kept failed =
    go (round.is_uuid s.id) (is_dead round.status s.id)
      (is_publish_due now (c.last_event_publish s.id) && has_user s.user_id c.db.users)
      (round.live_published s.id) refl refl refl
  where
    go :
        (parsed dead due published : Bool)
        → round.is_uuid s.id ≡ parsed
        → is_dead round.status s.id ≡ dead
        → round.live_published s.id ≡ published
        → P (
            if◌then◌else◌ {A = Option CheckError × CheckState}
              (not parsed)
              (some (invalid_uuid s.id), c)
              (if dead
                then (none, end_dead now round s c)
                else if due
                then if published
                  then (
                    none,
                    record c {
                      last_event_publish =
                          λ n. if n == s.id then some (now / 1000) else c.last_event_publish n;
                    },
                  )
                  else (some (publish_failed s.id), c)
                else (none, c)))
    go false dead due published p d l = unparsed p
    go true true due published p d l = gone d
    go true false true true p d l =
        kept d (λ n. if n == s.id then some (now / 1000) else c.last_event_publish n)
    go true false true false p d l = failed d l
    go true false false published p d l = kept d c.last_event_publish
