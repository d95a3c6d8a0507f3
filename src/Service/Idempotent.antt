-- ===== src/Service/Idempotent.antt =====
-- Which booking `Create` answers.
use booking_orchestration_se.Base.{
  ℕ, ◌≡◌, ◌⊎◌, inl, refl, true, false, Bool, String, Option, none, some, List, [], ◌∷◌, str_eq,
  arith,
}
use mathlib.Core.Path.{subst}
use text.Mathlib.TextEquality.{eq_iff}
use booking_orchestration_se.Model.Booking.{Booking, CreateRequest}
use booking_orchestration_se.Store.Table.{Db, find_key}
use booking_orchestration_se.Store.Statement.{
  Insertion, stored, key_exists, violation, insertion, inserted_row,
}
use booking_orchestration_se.World.{
  World, Fate, answered, refused, lost, answer_of, ◌>>=◌, pure, sql, Reply, ok, err,
}
use booking_orchestration_se.Repository.{scan, loaded, get_by_key, after_insert, insert_or_load}
use booking_orchestration_se.Service.Create.{
  Request, new_booking, create_with, create, replay, created,
}

-- A booking of this distributor under this key.
abbrev pub IsUnder : String → String → Booking → Type 0
IsUnder d k b = (str_eq b.distributor_id d ≡ true) × (str_eq b.idempotency_key k ≡ true)

find_key-IsUnder :
    (d k : String) (bs : List Booking) (b : Booking) → find_key d k bs ≡ some b → IsUnder d k b
unfolding find_key
find_key-IsUnder d k [] b h = ground arith
find_key-IsUnder d k (c ∷ bs) b h = ground (arith, find_key-IsUnder d k bs b)

scan-IsUnder :
    (d k : String) (f : Fate) (bs : List Booking) (b : Booking)
    → scan (answer_of f (find_key d k bs)) ≡ ok b
    → IsUnder d k b
scan-IsUnder d k answered bs b h = find_key-IsUnder d k bs b (ground (arith, h))
scan-IsUnder d k refused bs b h = ground arith
scan-IsUnder d k lost bs b h = ground arith

get_by_key-IsUnder :
    (d k : String) (w : World) (b : Booking) → (get_by_key d k w).0 ≡ ok b → IsUnder d k b
unfolding get_by_key ◌>>=◌ pure sql
get_by_key-IsUnder d k w b h = scan-IsUnder d k _ _ b h

loaded-ok :
    (r : Reply Booking) (b : Booking) (c : Bool) → loaded r ≡ ok (b, c) → (r ≡ ok b) × (c ≡ false)
loaded-ok r b c h = ground arith

-- What the INSERT stores.
insertion-stored :
    (b : Booking) (db : Db) (b' : Booking)
    → insertion b db ≡ stored b'
    → (b'.distributor_id ≡ b.distributor_id)
      × (b'.idempotency_key ≡ b.idempotency_key)
      × (b'.request_fingerprint ≡ b.request_fingerprint)
unfolding insertion inserted_row
insertion-stored b db b' h = ground (arith, h)

same_text : (s t : String) → s ≡ t → str_eq s t ≡ true
same_text s t h = (eq_iff s t).1 h

-- An answer of the insertion that was committed, or none.
abbrev IsTold : Booking → Option Insertion → Type 0
IsTold b none = Unit
IsTold b (some key_exists) = Unit
IsTold b (some violation) = Unit
IsTold b (some (stored b')) =
    IsUnder b.distributor_id b.idempotency_key b'
    × (str_eq b'.request_fingerprint b.request_fingerprint ≡ true)

IsTold-insertion : (b : Booking) (db : Db) (i : Insertion) → insertion b db ≡ i → IsTold b (some i)
IsTold-insertion b db key_exists h = tt
IsTold-insertion b db violation h = tt
IsTold-insertion b db (stored b') h =
    let (d, k, f) = insertion-stored b db b' h in
    ((same_text _ _ d, same_text _ _ k), same_text _ _ f)

IsTold-answer_of : (b : Booking) (db : Db) (f : Fate) → IsTold b (answer_of f (insertion b db))
IsTold-answer_of b db answered = IsTold-insertion b db (insertion b db) refl
IsTold-answer_of b db refused = tt
IsTold-answer_of b db lost = tt

-- A row that an insertion loads or stores.
abbrev IsLoaded : Booking → Booking → Bool → Type 0
IsLoaded b b' c =
    IsUnder b.distributor_id b.idempotency_key b'
    × ((c ≡ false) ⊎ (str_eq b'.request_fingerprint b.request_fingerprint ≡ true))

after_insert-IsLoaded :
    (b : Booking) (i : Option Insertion) (w : World) (b' : Booking) (c : Bool)
    → IsTold b i
    → (after_insert b i w).0 ≡ ok (b', c)
    → IsLoaded b b' c
unfolding after_insert ◌>>=◌ pure
after_insert-IsLoaded b none w b' c told h = ground arith
after_insert-IsLoaded b (some violation) w b' c told h = ground arith
after_insert-IsLoaded b (some (stored s)) w b' c told h = ground (arith, told, h)
after_insert-IsLoaded b (some key_exists) w b' c told h =
    let (found, not_made) = loaded-ok (get_by_key b.distributor_id b.idempotency_key w).0 b' c h in
    (get_by_key-IsUnder b.distributor_id b.idempotency_key w b' found, inl not_made)

insert_or_load-IsLoaded :
    (b : Booking) (q : Option String) (w : World) (b' : Booking) (c : Bool)
    → (insert_or_load b q w).0 ≡ ok (b', c)
    → IsLoaded b b' c
unfolding insert_or_load ◌>>=◌ sql
insert_or_load-IsLoaded b q w b' c h = after_insert-IsLoaded b _ _ b' c (IsTold-answer_of b _ _) h

-- A booking that `Create` may answer for a request.
abbrev pub IsAnswer : String → String → String → Booking → Type 0
IsAnswer d k f b = IsUnder d k b × (str_eq b.request_fingerprint f ≡ true)

replay-IsAnswer :
    (stored_row : Booking) (f : String) (b : Booking) (c : Bool)
    → replay stored_row f ≡ ok (b, c)
    → (stored_row ≡ b) × (str_eq b.request_fingerprint f ≡ true)
unfolding replay
replay-IsAnswer stored_row f b c h = ground (arith, h)

created-IsAnswer :
    (r : Request) (d k f : String) (x : Reply (Booking × Bool)) (w : World) (b : Booking) (c : Bool)
    → ((b' : Booking) (c' : Bool)
        → x ≡ ok (b', c')
        → IsUnder d k b' × ((c' ≡ false) ⊎ (str_eq b'.request_fingerprint f ≡ true)))
    → (created r f x w).0 ≡ ok (b, c)
    → IsAnswer d k f b
unfolding created ◌>>=◌ pure
created-IsAnswer r d k f (err e) w b c from h = ground arith
created-IsAnswer r d k f (ok (s, false)) w b c from h =
    let (same, under) = replay-IsAnswer s f b c h in
    (subst (λ x. IsUnder d k x) same (from s false refl).0, under)
created-IsAnswer r d k f (ok (s, true)) w b c from h = ground (arith, from s true refl, h)

create_with-IsAnswer :
    (r : Request) (req : CreateRequest) (id : Option ℕ) (w : World) (b : Booking) (c : Bool)
    → (create_with r req id w).0 ≡ ok (b, c)
    → IsAnswer r.distributor req.idempotency_key
        (r.fingerprint (record req { distributor_id = r.distributor }))
        b
unfolding create_with ◌>>=◌ pure new_booking
create_with-IsAnswer r req none w b c h = ground arith
create_with-IsAnswer r req (some id) w b c h =
    created-IsAnswer r _ _ _ (insert_or_load (new_booking r id req) r.request_id w).0 _ b c
      (λ b' c' e. insert_or_load-IsLoaded (new_booking r id req) r.request_id w b' c' e) h

-- A booking that `Create` answers, as new or as a replay, is one of the caller's distributor under
-- the request's idempotency key and with the request's fingerprint: in any world, whatever the other
-- sessions do, and whichever statements fail. A key that was used with another payload is never
-- answered with a booking.
pub create-IsAnswer :
    (r : Request) (req : CreateRequest) (w : World) (b : Booking) (c : Bool)
    → (create r req w).0 ≡ ok (b, c)
    → IsAnswer r.distributor req.idempotency_key
        (r.fingerprint (record req { distributor_id = r.distributor }))
        b
unfolding create
create-IsAnswer r req w b c h = create_with-IsAnswer r req r.new_id w b c h
