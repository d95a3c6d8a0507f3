-- ===== src/Server/Laws.antt =====
-- Who reads and who writes through the engine.
use booking_orchestration_se.Handler.Callback.{receive}
use booking_orchestration_se.Base.{
  ℕ, String, Bool, true, false, Option, none, some, List, ◌≡◌, refl, arith, inl, inr, str_eq,
  eq_iff, sym, ◌∙◌, is_some,
}
use booking_orchestration_se.Model.Booking.{Booking}
use booking_orchestration_se.World.{World, M, ◌>>=◌, pure, Reply, ok, err}
use booking_orchestration_se.Service.Create.{Request, get}
use booking_orchestration_se.Service.Own.{get-own}
use booking_orchestration_se.Auth.Key.{Key}
use booking_orchestration_se.Auth.Middleware.{ApiKey, Verdict, authenticate, cut_prefix}
use booking_orchestration_se.Auth.Admission.{IsVouched, IsJust, key_in, authenticate-IsJust}
use booking_orchestration_se.Handler.Booking.{
  Response, create_handler, get_handler, get_response, CreateBookingRequest, Clock,
}
use booking_orchestration_se.Handler.Laws.{create_handler-IsResponse}
use booking_orchestration_se.Server.Context.{
  Context, with_distributor, distributor, request_context, chosen_id, background,
}
use booking_orchestration_se.Server.Response.{
  Written, BookingResponse, Formats, render, to_response, rendered,
}
use booking_orchestration_se.Server.Engine.{
  Server, HttpRequest, Body, Route, plain_body, booking_body, callback_body_of, service_request,
  admitted, routed, serve_http, healthz, readyz, supplier_callbacks, bookings, booking, swagger,
  unknown_route, ready,
}

-- The table of keys has an unrevoked row for the credential that the request carries, whose hash
-- verifies the credential's secret and whose distributor is `d`.
abbrev pub IsCaller : Server → HttpRequest → String → Type 0
IsCaller s q d =
    (key : Key) × (ks : List ApiKey) × (key_in s.crypto (cut_prefix "Bearer " q.authorization)
      ≡ some key)
    × (s.keys ≡ some ks)
    × IsVouched s.crypto ks key d

verdict-IsCaller :
    (s : Server) (q : HttpRequest) (d : String) (k : Option Key) (v : Verdict)
    → key_in s.crypto (cut_prefix "Bearer " q.authorization) ≡ k
    → IsJust s.crypto s.decoy s.keys k v
    → v.distributor ≡ some d
    → IsCaller s q d
verdict-IsCaller s q d none v e (refused, done) h = cc
verdict-IsCaller s q d (some key) v e (trial, inl refused) h = cc
verdict-IsCaller s q d (some key) v e (trial, inr (d', ks, named, whole, vouched)) h =
    let same : some d' ≡ some d = sym named ∙ h in
    let one : d' ≡ d = cc same in (key, ks, e, whole, rw (← one) vouched)

admitted_through :
    (ctx : Context) (o : Option String) (handler : Context → M Response) (write : Response → Body)
    (w : World) (x : Written)
    → (admitted ctx o handler write w).0 ≡ booking_body x
    → (d : String) × (o ≡ some d) × (write (handler (with_distributor ctx d) w).0 ≡ booking_body x)
unfolding admitted ◌>>=◌ pure
admitted_through ctx none handler write w x h = cc
admitted_through ctx (some d) handler write w x h = (d, refl, h)

rendered_body :
    (f : Formats) (r : Response) (o : Option Booking) (y : BookingResponse)
    → (rendered f r o).body ≡ some y
    → (b : Booking) × (o ≡ some b) × (to_response f b ≡ y)
rendered_body f r none y h = cc
rendered_body f r (some b) y h = (b, refl, cc)

-- Both handlers answer with bookings of their request's distributor.
create_handler-own :
    (r : Request) (clock : Clock) (body : Option CreateBookingRequest) (w : World) (b : Booking)
    → (create_handler r clock body w).0.booking ≡ some b
    → b.distributor_id ≡ r.distributor
unfolding create_handler pure
create_handler-own r clock none w b h = cc
create_handler-own r clock (some body) w b h =
    let (req, parsed, stay, (under, fingerprint)) = create_handler-IsResponse r clock body w b h in
    ground (arith, under, eq_iff b.distributor_id r.distributor)

get_response-booking :
    (x : Reply Booking) (b : Booking) → (get_response x).booking ≡ some b → x ≡ ok b
unfolding get_response
get_response-booking (ok c) b h = cc
get_response-booking (err e) b h = ground (arith, h)

get_handler-own :
    (r : Request) (id : Option ℕ) (w : World) (b : Booking)
    → (get_handler r id w).0.booking ≡ some b
    → b.distributor_id ≡ r.distributor
unfolding get_handler ◌>>=◌ pure
get_handler-own r none w b h = cc
get_handler-own r (some id) w b h = ground (
  arith,
  get-own r id w b (get_response-booking (get r id w).0 b h),
  eq_iff b.distributor_id r.distributor,
)

caller :
    (s : Server) (q : HttpRequest) (d : String)
    → (authenticate s.crypto s.decoy s.keys q.authorization).distributor ≡ some d
    → IsCaller s q d
caller s q d h =
    verdict-IsCaller s q d _ _ refl (authenticate-IsJust s.crypto s.decoy s.keys q.authorization) h

-- A group's handler that answers with bookings of its distributor.
module _ (s : Server) (q : HttpRequest) (ctx : Context) (handler : Context → M Response)
    (own : (c : Context) (w : World) (b : Booking)
      → (handler c w).0.booking ≡ some b
      → b.distributor_id ≡ distributor c) where
  admitted-IsCaller :
      (w : World) (x : Written) (y : BookingResponse)
      → (admitted ctx
          (authenticate s.crypto s.decoy s.keys q.authorization).distributor
          handler
          (λ r. booking_body (render s.formats r))
          w).0
        ≡ booking_body x
      → x.body ≡ some y
      → IsCaller s q y.distributor_id
  unfolding render to_response distributor
  admitted-IsCaller w x y h e =
      let (d, named, answered) = admitted_through ctx _ handler _ w x h in
      let r = (handler (with_distributor ctx d) w).0 in
      let same : rendered s.formats r r.booking ≡ x = cc answered in
      let (b, there, written) = rendered_body s.formats r r.booking y (rw same e) in
      let owned = own (with_distributor ctx d) w b there in
      let one : d ≡ y.distributor_id = rw (← written) (sym owned) in rw (← one) (caller s q d named)

routed-IsCaller :
    (s : Server) (q : HttpRequest) (ctx : Context) (route : Route) (w : World) (x : Written)
    (y : BookingResponse)
    → (routed s q ctx route w).0 ≡ booking_body x
    → x.body ≡ some y
    → IsCaller s q y.distributor_id
unfolding routed ready ◌>>=◌ pure service_request
routed-IsCaller s q ctx healthz w x y h e = cc
routed-IsCaller s q ctx readyz w x y h e = cc
routed-IsCaller s q ctx supplier_callbacks w x y h e = cc
routed-IsCaller s q ctx bookings w x y h e =
    admitted-IsCaller s q ctx _
      (λ c. create_handler-own (service_request s c) s.clock q.create_body) w x y h e
routed-IsCaller s q ctx (booking id) w x y h e =
    admitted-IsCaller s q ctx _ (λ c. get_handler-own (service_request s c) (s.parse_uuid id)) w x y
      h e
routed-IsCaller s q ctx swagger w x y h e = cc
routed-IsCaller s q ctx unknown_route w x y h e = cc

-- A response of the engine that carries a booking, in any world: the request's credential is one
-- that an unrevoked row of the table vouches for, and the booking is of that row's distributor.
pub serve_http-IsCaller :
    (s : Server) (q : HttpRequest) (w : World) (x : Written) (y : BookingResponse)
    → (serve_http s q w).0.body ≡ booking_body x
    → x.body ≡ some y
    → IsCaller s q y.distributor_id
unfolding serve_http ◌>>=◌ pure
serve_http-IsCaller s q w x y h e = routed-IsCaller s q _ q.route w x y h e

-- What answers 401 with a code and does nothing.
abbrev pub IsRefusal : Body → String → Type 0
IsRefusal (plain_body status c) code = (status ≡ 401) × (c ≡ code)
IsRefusal (booking_body x) code = ⊥
IsRefusal (callback_body_of r) code = (r.status ≡ 401) × (r.code ≡ code) × (r.result ≡ none)

abbrev pub IsRefused : M Body → World → String → Type 0
IsRefused m w code = ((m w).1 ≡ w) × IsRefusal (m w).0 code

-- The body of the engine's answer.
abbrev pub answered : Server → HttpRequest → M Body
answered s q w = ((serve_http s q w).0.body, (serve_http s q w).1)

-- Whether a request brings what its route asks for: nothing, the callback's token, or a
-- distributor's credential.
abbrev pub admits : Server → HttpRequest → Route → Bool
admits s q supplier_callbacks = str_eq q.callback_token s.token
admits s q bookings = is_some (authenticate s.crypto s.decoy s.keys q.authorization).distributor
admits s q (booking id) = is_some (authenticate s.crypto s.decoy s.keys q.authorization).distributor
admits s q _ = true

abbrev pub refusal_code : Route → String
refusal_code supplier_callbacks = "invalid_token"
refusal_code _ = "unauthorized"

unnamed : {A : Type 0} (o : Option A) → is_some o ≡ false → o ≡ none
unnamed none h = refl
unnamed (some a) h = cc

routed-IsRefused :
    (s : Server) (q : HttpRequest) (ctx : Context) (route : Route) (w : World)
    → admits s q route ≡ false
    → IsRefused (routed s q ctx route) w (refusal_code route)
unfolding routed admitted receive ◌>>=◌ pure
routed-IsRefused s q ctx healthz w h = cc
routed-IsRefused s q ctx readyz w h = cc
routed-IsRefused s q ctx swagger w h = cc
routed-IsRefused s q ctx unknown_route w h = cc
routed-IsRefused s q ctx supplier_callbacks w h = rw h (refl, (refl, refl, refl))
routed-IsRefused s q ctx bookings w h =
    rw (unnamed (authenticate s.crypto s.decoy s.keys q.authorization).distributor h)
      (refl, (refl, refl))
routed-IsRefused s q ctx (booking id) w h =
    rw (unnamed (authenticate s.crypto s.decoy s.keys q.authorization).distributor h)
      (refl, (refl, refl))

-- A request that does not bring what its route asks for (the callback's token, or a credential that
-- the middleware admits) is answered 401 with the route's code and the request's id, and leaves the
-- whole world as it was: no statement goes to the bookings and nothing is sent or started, whatever
-- its path and body.
pub serve_http-IsRefused :
    (s : Server) (q : HttpRequest) (w : World)
    → admits s q q.route ≡ false
    → IsRefused (answered s q) w (refusal_code q.route)
      × ((serve_http s q w).0.request_id ≡ chosen_id q.request_id_header s.new_request_id)
unfolding serve_http ◌>>=◌ pure
serve_http-IsRefused s q w h = (
  routed-IsRefused s q (request_context q.request_id_header s.new_request_id background) q.route w
      h,
  refl,
)
