-- ===== src/Quiet/Register.antt =====
-- The register of idempotency keys that the table of bookings holds, and its one operation: what a
-- creation (`Create` of internal/service/booking/service.go) is to promise.
use booking_orchestration_se.Base.{ℕ, String, Bool, Option, none, some, ◌&&◌, str_eq, if◌then◌else◌}
use booking_orchestration_se.Model.Booking.{Booking, idempotency_key_reused}
use booking_orchestration_se.Store.Table.{Db, find_key}
use booking_orchestration_se.World.{Reply, ok, err}

-- The booking of a key and the fingerprint of what was asked for under it.
abbrev pub Entry : Type 0
Entry = ℕ × String

abbrev pub Register : Type 0
Register = String → String → Option Entry

abbrev pub entry_of : Option Booking → Option Entry
entry_of none = none
entry_of (some b) = some (b.id, b.request_fingerprint)

-- The register that the tables hold.
abbrev pub register_of : Db → Register
register_of db d k = entry_of (find_key d k db.bookings)

abbrev pub enter : Register → String → String → Entry → Register
enter reg d k e d' k' = if str_eq d d' && str_eq k k' then some e else reg d' k'

-- What a request under a key comes to, given the entry of the key: the first one is entered, and a
-- later one is answered with what was entered, if it asks for the same.
abbrev pub entered : Register → String → String → Entry → Option Entry → Reply Entry × Register
entered reg d k e none = (ok e, enter reg d k e)
entered reg d k e (some old) =
    (if str_eq old.1 e.1 then ok old else err idempotency_key_reused, reg)

abbrev pub register : Register → String → String → Entry → Reply Entry × Register
register reg d k e = entered reg d k e (reg d k)

abbrev pub answer_entry : Reply (Booking × Bool) → Reply Entry
answer_entry (err e) = err e
answer_entry (ok (b, c)) = ok (b.id, b.request_fingerprint)
