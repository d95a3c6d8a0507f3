-- ===== src/Repository/Replay.antt =====
-- What a booking's lineage says, read oldest first.
use booking_orchestration_se.Base.{
  ℕ, ◌<◌, ◌≡◌, ◌≤◌, refl, arith, Option, none, List, [], ◌∷◌, ◌++◌, ◌==◌, Bool-cases, inl, inr,
}
use booking_orchestration_se.Model.Status.{Status}
use booking_orchestration_se.Model.Booking.{Event}
use booking_orchestration_se.Store.Lineage.{follow, replay}
use booking_orchestration_se.Store.Ordered.{IsBelow}
use booking_orchestration_se.Repository.Lineage.{put_by_seq, lineage}

-- The status that a reader of the rows comes to.
unfoldable pub read_through : Option Status → List Event → Option Status
read_through old [] = old
read_through old (e ∷ es) = read_through (follow e.from_status e.to_status old) es

read_through_snoc :
    (es : List Event) (e : Event) (old : Option Status)
    → read_through old (es ++ (e ∷ [])) ≡ follow e.from_status e.to_status (read_through old es)
unfolding read_through
read_through_snoc [] e old = refl
read_through_snoc (f ∷ fs) e old = read_through_snoc fs e (follow f.from_status f.to_status old)

-- Rows that are all older.
abbrev IsBefore : ℕ → List Event → Type 0
IsBefore n [] = Unit
IsBefore n (e ∷ es) = (e.seq < n) × IsBefore n es

put_last : (e : Event) (es : List Event) → IsBefore e.seq es → put_by_seq e es ≡ es ++ (e ∷ [])
unfolding put_by_seq
put_last e [] h = refl
put_last e (f ∷ fs) h = ground (arith, h, put_last e fs)

IsBefore-later : (m n : ℕ) (es : List Event) → m ≤ n → IsBefore m es → IsBefore n es
IsBefore-later m n [] h before = tt
IsBefore-later m n (e ∷ es) h before = (omega arith, IsBefore-later m n es h before.1)

IsBefore-snoc :
    (n : ℕ) (es : List Event) (e : Event) → IsBefore n es → e.seq < n → IsBefore n (es ++ (e ∷ []))
IsBefore-snoc n [] e h last = (last, tt)
IsBefore-snoc n (f ∷ fs) e h last = (h.0, IsBefore-snoc n fs e h.1 last)

lineage-IsBefore : (id n : ℕ) (es : List Event) → IsBelow n es → IsBefore n (lineage id es)
unfolding lineage
lineage-IsBefore id n [] h = tt
lineage-IsBefore id n (e ∷ es) h =
    let rest = lineage-IsBefore id e.seq es h.1 in
    let before = IsBefore-later e.seq n (lineage id es) (omega arith) rest in
    elim (Bool-cases (e.booking_id == id)) [
      | inl mine ↦
          rw (mine, put_last e (lineage id es) rest) (IsBefore-snoc n (lineage id es) e before h.0)
      | inr other ↦ rw other before
    ]

-- The rows that the query gives are read to the status to which the table's rows are replayed.
pub read_through-lineage :
    (id n : ℕ) (es : List Event) → IsBelow n es → read_through none (lineage id es) ≡ replay id es
unfolding lineage replay
read_through-lineage id n [] h = unfold read_through in refl
read_through-lineage id n (e ∷ es) h =
    let below = read_through-lineage id e.seq es h.1 in
    elim (Bool-cases (e.booking_id == id)) [
      | inl mine ↦
          rw
            (
              mine,
              put_last e (lineage id es) (lineage-IsBefore id e.seq es h.1),
              read_through_snoc (lineage id es) e none,
              below,
            )
            refl
      | inr other ↦ rw other below
    ]
