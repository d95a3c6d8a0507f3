-- ===== src/Store/Rows.antt =====
-- What each locked statement does to the row it has locked (internal/repository/booking,
-- transition.go and authorize.go): `none` where the guard matches nothing, else the updated row
-- and the lineage row that the same statement appends, if any.
use booking_orchestration_se.Base.{
  ℕ, ◌+◌, String, Bool, true, false, not, ◌&&◌, Option, none, some, is_some, is_none, or_else,
  holds, ltb, ◌==◌, if◌then◌else◌,
}
use booking_orchestration_se.Model.Status.{Status, received, pending, unknown, status_eq, is_open}
use booking_orchestration_se.Model.Booking.{
  Booking, Event, no_event, supplier_request, supplier_timeout, parked,
}
use booking_orchestration_se.Contract.{MarkerRule, unset, clear, owned, supersede, Transition}

-- The trigger `bookings_touch_updated_at`.
abbrev pub touch : ℕ → Booking → Booking → Booking
touch now old new =
    if new.updated_at == old.updated_at then record new { updated_at = now } else new

abbrev pub Locked : Type 0
Locked = Option (Booking × Option Event)

-- `markerPredicate` as the statement evaluates it.
abbrev pub marker_ok : MarkerRule → Option ℕ → Option ℕ → Bool
marker_ok unset attempt marker = false
marker_ok clear attempt marker = is_none marker
marker_ok owned none marker = false
marker_ok owned (some n) marker = holds marker n
marker_ok supersede attempt marker = true

unfoldable pub guarded : Transition → Booking → Bool
guarded t b = status_eq b.status t.from && marker_ok t.marker t.attempt b.in_flight_attempt

-- `guardedTemplate`: the UPDATE, and the lineage row that records it.
unfoldable pub apply_row : ℕ → Transition → Booking → Locked
unfolding guarded
apply_row now t b =
    if guarded t b
    then some (
      touch now b (record b {
        status = t.to;
        version = b.version + 1;
        in_flight_attempt = none;
        supplier_reference = or_else t.supplier_reference b.supplier_reference;
        failure_reason = t.failure_reason;
        needs_recovery = if t.clear_recovery_flag then false else b.needs_recovery;
      }),
      some (record no_event {
        booking_id = b.id;
        from_status = some b.status;
        to_status = t.to;
        event_type = t.event_type;
        attempt = t.attempt;
        request_id = t.request_id;
        supplier_status_code = t.supplier_status_code;
        supplier_reason = t.supplier_reason;
        payload_digest = t.payload_digest;
      }),
    )
    else none

-- `ClearMarker`.
unfoldable pub clear_marker_row : ℕ → ℕ → Event → Booking → Locked
clear_marker_row now attempt e b =
    if holds b.in_flight_attempt attempt
    then some (
      touch now b (record b { in_flight_attempt = none; version = b.version + 1 }),
      some (record no_event {
        booking_id = b.id;
        from_status = some b.status;
        to_status = b.status;
        event_type = e.event_type;
        attempt = some attempt;
        request_id = e.request_id;
        supplier_reason = e.supplier_reason;
      }),
    )
    else none

-- The guard of `Authorize`.
unfoldable pub authorizable : ℕ → Booking → Bool
authorizable max_attempts b =
    is_none b.in_flight_attempt && ltb b.supplier_attempts max_attempts && is_open b.status

abbrev pub sent_status : Status → Status
sent_status received = pending
sent_status s = s

-- `Authorize`.
unfoldable pub authorize_row : ℕ → ℕ → String → Option String → Booking → Locked
unfolding authorizable
authorize_row now max_attempts key request_id b =
    if authorizable max_attempts b
    then some (
      record b {
        supplier_attempts = b.supplier_attempts + 1;
        in_flight_attempt = some (b.supplier_attempts + 1);
        status = sent_status b.status;
        supplier_idempotency_key = or_else b.supplier_idempotency_key (some key);
        version = b.version + 1;
        updated_at = now;
      },
      some (record no_event {
        booking_id = b.id;
        from_status = some b.status;
        to_status = sent_status b.status;
        event_type = supplier_request;
        attempt = some (b.supplier_attempts + 1);
        request_id = request_id;
      }),
    )
    else none

abbrev pub is_doubtful : Status → Bool
is_doubtful pending = true
is_doubtful unknown = true
is_doubtful _ = false

-- The guard of `ResolveStaleMarker`.
unfoldable pub resolvable : Booking → Bool
resolvable b = is_some b.in_flight_attempt && is_doubtful b.status

-- `ResolveStaleMarker`.
unfoldable pub resolve_row : ℕ → Option String → Booking → Locked
unfolding resolvable
resolve_row now request_id b =
    if resolvable b
    then some (
      record b {
        status = unknown;
        in_flight_attempt = none;
        version = b.version + 1;
        updated_at = now;
      },
      some (record no_event {
        booking_id = b.id;
        from_status = some b.status;
        to_status = unknown;
        event_type = supplier_timeout;
        attempt = b.in_flight_attempt;
        request_id = request_id;
        supplier_reason = some "attempt_abandoned";
      }),
    )
    else none

-- The guard of `ParkIfUnknown`.
unfoldable pub parkable : Booking → Bool
parkable b = status_eq b.status unknown && is_none b.in_flight_attempt

-- `ParkIfUnknown`: only the first park of a booking is recorded.
unfoldable pub park_row : ℕ → Option String → Booking → Locked
unfolding parkable
park_row now request_id b =
    if parkable b
    then some (
      record b { needs_recovery = true; version = b.version + 1; updated_at = now },
      if b.needs_recovery
          then none
          else some (record no_event {
            booking_id = b.id;
            from_status = some unknown;
            to_status = unknown;
            event_type = parked;
            attempt = some b.supplier_attempts;
            request_id = request_id;
          }),
    )
    else none

-- `Flag`: no lineage row, and no match where the flag is set.
unfoldable pub flag_row : ℕ → Booking → Locked
flag_row now b =
    if not b.needs_recovery
    then some (touch now b (record b { needs_recovery = true; version = b.version + 1 }), none)
    else none
