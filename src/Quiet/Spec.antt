-- ===== src/Quiet/Spec.antt =====
-- What a booking comes to, by the supplier's answers alone: no tables, markers or retries.
use booking_orchestration_se.Base.{ℕ, zero, suc, Bool, true, false, List, ◌∷◌, if◌then◌else◌}
use booking_orchestration_se.Model.Status.{
  Status, pending, unknown, confirmed, rejected, failed, status_eq,
}
use booking_orchestration_se.Supplier.Client.{Outcome, BookRequest, Client}
use booking_orchestration_se.Store.Rows.{sent_status}

-- The outcomes that a supplier's client gives.
abbrev pub is_supplied : Outcome → Bool
is_supplied Outcome.confirmed = true
is_supplied Outcome.rejected = true
is_supplied Outcome.ambiguous = true
is_supplied Outcome.not_sent = true
is_supplied Outcome.pre_send_failure = true
is_supplied _ = false

-- The status that an answer gives to a booking that was sent from `s`.
abbrev pub status_after : Outcome → Status → Status
status_after Outcome.confirmed s = confirmed
status_after Outcome.rejected s = rejected
status_after Outcome.ambiguous s = unknown
status_after Outcome.pre_send_failure s = if status_eq s unknown then unknown else failed
status_after _ s = s

-- Whether another attempt follows.
abbrev pub is_again : Outcome → Bool
is_again Outcome.ambiguous = true
is_again Outcome.not_sent = true
is_again _ = false

-- What becomes of a booking for which no attempt is left: only one that no supplier can hold fails.
abbrev pub given_up : Status → Status
given_up pending = failed
given_up s = s

-- The walk with `left` attempts, after the requests `calls`.
unfoldable pub walk : Client → BookRequest → ℕ → List BookRequest → Status → Status
walk client req zero calls s = given_up s
walk client req (suc left) calls s =
    let o = (client calls req).outcome in
    let rest = walk client req left (req ∷ calls) (status_after o (sent_status s)) in
    if is_again o then rest else status_after o (sent_status s)
