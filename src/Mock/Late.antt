-- ===== src/Mock/Late.antt =====
-- The mock's late confirmation against the endpoint that it calls, in a quiet world.
use booking_orchestration_se.Base.{
  ℕ, String, true, false, Option, none, some, List, [], ◌∷◌, ◌≡◌, refl, is_empty, eq_iff, suc, ◌∙◌,
}
use booking_orchestration_se.Model.Status.{confirmed, may_move, status_text}
use booking_orchestration_se.Model.Booking.{Booking}
use booking_orchestration_se.World.{M, ◌>>=◌, pure, ok, Reply, World}
use booking_orchestration_se.Store.Table.{Db, find}
use booking_orchestration_se.Service.Create.{Request}
use booking_orchestration_se.Service.Callback.{
  CallbackResult, applied_to, duplicate_of, apply_callback, applicable_status, outcome_reference,
}
use booking_orchestration_se.Handler.Callback.{
  CallbackRequest, CallbackResponse, callback_response, receive, receive_bound, receive_identified,
}
use booking_orchestration_se.Quiet.Write.{Rest, over}
use booking_orchestration_se.Quiet.Whole.{Rewrites, bind-Rewrites, pure-Rewrites}
use booking_orchestration_se.Quiet.Redelivery.{coherent-IsDelivered}
use booking_orchestration_se.Mock.{callback_of, deliveries, confirm_late}

module _ (rq : Request) (parse_uuid : String → Option ℕ) (token : String) where
  -- The endpoint, called with its own token and a body that it can read.
  abbrev pub endpoint : CallbackRequest → M CallbackResponse
  endpoint body = receive rq parse_uuid token token (some body)

  endpoint_runs :
      (booking_id ref : String) (id : ℕ) (a : Reply CallbackResult) (w w' : World)
      → parse_uuid booking_id ≡ some id
      → apply_callback rq id (callback_of booking_id ref).outcome w ≡ (a, w')
      → endpoint (callback_of booking_id ref) w ≡ (callback_response a, w')
  unfolding receive receive_bound receive_identified ◌>>=◌ pure callback_of
  endpoint_runs booking_id ref id a w w' parsed runs =
      rw ((eq_iff token token).1 refl, parsed, runs) refl

-- A delivery that runs as `m` does, answered by `f`.
module _ {A B : Type 0} (post : CallbackRequest → M A) (booking_id ref : String) (m : M B)
    (f : B → A)
    (as_m : (a : B) (w w' : World)
      → m w ≡ (a, w')
      → post (callback_of booking_id ref) w ≡ (f a, w')) where
  none_left :
      (r : Rest) (db : Db) (b : Booking)
      → find b.id db.bookings ≡ some b
      → Rewrites r db b (deliveries post 0 booking_id ref) [] r b
  unfolding deliveries pure
  none_left r db b h = pure-Rewrites r db b h (pure []) [] r refl

  one_more :
      (left : ℕ) (r r' r'' : Rest) (db : Db) (b b' b'' : Booking) (a : B) (more : List A)
      → (first : Rewrites r db b m a r' b')
      → Rewrites r' first.after b' (deliveries post left booking_id ref) more r'' b''
      → Rewrites r db b (deliveries post (suc left) booking_id ref) (f a ∷ more) r'' b''
  unfolding deliveries pure
  one_more left r r' r'' db b b' b'' a more first rest =
      let once : Rewrites r db b (post (callback_of booking_id ref)) (f a) r' b' = record {
        after = first.after;
        runs = as_m a (over r db) (over r' first.after) first.runs;
        bookings = first.bookings;
        found = first.found;
        same = first.same;
      } in
      let listed =
        pure-Rewrites r'' rest.after b'' rest.found (pure (f a ∷ more)) (f a ∷ more) r'' refl in
      bind-Rewrites r r' r'' db b b' b'' _ _ (f a) (f a ∷ more) once
        (bind-Rewrites r' r'' r'' first.after b' b'' b'' _ _ more (f a ∷ more) rest listed)

-- What the two deliveries are answered.
abbrev pub answers : List CallbackResponse
answers =
    record { status = 200; code = ""; result = some (applied_to confirmed) }
    ∷ record { status = 200; code = ""; result = some (duplicate_of confirmed) }
    ∷ []

module _ (rq : Request) (parse_uuid : String → Option ℕ) (token booking_id ref : String) (r : Rest)
    (db : Db) (b : Booking) (h : find b.id db.bookings ≡ some b)
    (parsed : parse_uuid booking_id ≡ some b.id) (may : may_move b.status confirmed ≡ true)
    (bare : b.supplier_reference ≡ none) where
  -- In a quiet world, the late confirmation of a booking that is PENDING or UNKNOWN and has no
  -- reference yet, delivered to the callback's endpoint with its token: the first delivery is
  -- answered 200 as applied and the second 200 as a duplicate, and together they confirm the row
  -- under the reference, clear its marker and flag, leave every other row alone, wake the run once
  -- and send nothing to the supplier.
  pub confirm_late-IsOnce :
      is_empty ref ≡ false
      → (r' : Rest) × (b' : Booking) × Rewrites r db b
          (confirm_late (endpoint rq parse_uuid token) booking_id ref)
          answers
          r'
          b'
        × (b'.status ≡ confirmed)
        × (b'.supplier_reference ≡ some ref)
        × (b'.needs_recovery ≡ false)
        × (b'.in_flight_attempt ≡ none)
        × (r'.signals ≡ (b.id, "CONFIRMED") ∷ r.signals)
        × (r'.calls ≡ r.calls)
  unfolding confirm_late callback_of callback_response applicable_status outcome_reference
      status_text
  confirm_late-IsOnce named =
      let o = (callback_of booking_id ref).outcome in
      let (r', b', first, r'', b'', second, shows, woken, silent) =
        coherent-IsDelivered rq rq o r db b h confirmed refl may bare refl in
      let post = endpoint rq parse_uuid token in
      let m = apply_callback rq b.id o in
      let as_m =
        λ (a : Reply CallbackResult) (w : World) (w' : World)
            (runs : apply_callback rq b.id o w ≡ (a, w')).
          endpoint_runs rq parse_uuid token booking_id ref b.id a w w' parsed runs in
      let left =
        none_left post booking_id ref m callback_response as_m r'' second.after b'' second.found in
      let again =
        one_more post booking_id ref m callback_response as_m 0 r' r'' r'' first.after b' b'' b''
          (ok (duplicate_of confirmed)) [] second left in
      (
        r'',
        b'',
        one_more post booking_id ref m callback_response as_m 1 r r' r'' db b b' b''
            (ok (applied_to confirmed)) _ first again,
        shows.status,
        shows.reference ∙ rw named refl,
        shows.flagged ∙ rw named refl,
        shows.marker,
        woken,
        silent,
      )
