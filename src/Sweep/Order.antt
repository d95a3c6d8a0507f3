-- ===== src/Sweep/Order.antt =====
-- The order of the rows that `FindStale` gives (internal/repository/booking/repository.go), and how
-- often each of them stands there.
use booking_orchestration_se.Base.{
  ℕ, zero, suc, ◌+◌, ◌≤◌, ◌==◌, ◌≡◌, inl, inr, if◌then◌else◌, refl, List, [], ◌∷◌, arith, All,
  Bool-cases, leb, ◌⊎◌, sym, ap, ◌∙◌, true, false,
}
use booking_orchestration_se.Model.Booking.{Booking}
use booking_orchestration_se.Sweep.Stale.{
  StaleThresholds, is_stale, put_by_age, stale_rows, take, ids,
}

-- A row of a list.
abbrev pub IsRow : Booking → List Booking → Type 0
IsRow b [] = ⊥
IsRow b (c ∷ cs) = (b ≡ c) ⊎ IsRow b cs

-- How often an id was asked for.
abbrev pub times_asked : ℕ → List ℕ → ℕ
times_asked id [] = 0
times_asked id (x ∷ xs) = (if x == id then 1 else 0) + times_asked id xs

pub times_asked-put_by_age :
    (id : ℕ) (b : Booking) (cs : List Booking)
    → times_asked id (ids (put_by_age b cs))
      ≡ (if b.id == id then 1 else 0) + times_asked id (ids cs)
unfolding put_by_age
times_asked-put_by_age id b [] = refl
times_asked-put_by_age id b (c ∷ cs) = ground (arith, times_asked-put_by_age id b cs)

times_asked-take :
    (id n : ℕ) (bs : List Booking) → times_asked id (ids (take n bs)) ≤ times_asked id (ids bs)
times_asked-take id zero bs = omega arith
times_asked-take id (suc n) [] = omega arith
times_asked-take id (suc n) (b ∷ bs) = let rest = times_asked-take id n bs in omega (arith, rest)

times_asked-stale_rows :
    (now : ℕ) (t : StaleThresholds) (id : ℕ) (bs : List Booking)
    → times_asked id (ids (stale_rows now t bs)) ≤ times_asked id (ids bs)
unfolding stale_rows
times_asked-stale_rows now t id [] = omega arith
times_asked-stale_rows now t id (b ∷ bs) =
    let rest = times_asked-stale_rows now t id bs in
    let put = times_asked-put_by_age id b (stale_rows now t bs) in
    elim (Bool-cases (is_stale now t b)) [
      | inl stale ↦ rw stale (omega (arith, rest, put))
      | inr fresh ↦ rw fresh (omega (arith, rest))
    ]

-- What is taken of the stale rows stands there no more often than in the table.
pub taken_once :
    (now : ℕ) (t : StaleThresholds) (m n id : ℕ) (bs : List Booking)
    → times_asked id (ids (take m (take n (stale_rows now t bs)))) ≤ times_asked id (ids bs)
taken_once now t m n id bs =
    let first = times_asked-take id m (take n (stale_rows now t bs)) in
    let second = times_asked-take id n (stale_rows now t bs) in
    let third = times_asked-stale_rows now t id bs in omega arith

-- Every row is no younger than those that follow it.
abbrev pub IsByAge : List Booking → Type 0
IsByAge [] = Unit
IsByAge (b ∷ bs) = All (λ (c : Booking). b.updated_at ≤ c.updated_at) bs × IsByAge bs

older_than :
    (b c : Booking) (cs : List Booking)
    → b.updated_at ≤ c.updated_at
    → All (λ (d : Booking). c.updated_at ≤ d.updated_at) cs
    → All (λ (d : Booking). b.updated_at ≤ d.updated_at) cs
older_than b c [] h k = tt
older_than b c (d ∷ cs) h (k, ks) = (omega arith, older_than b c cs h ks)

put_by_age-All :
    (a b : Booking) (cs : List Booking)
    → a.updated_at ≤ b.updated_at
    → All (λ (d : Booking). a.updated_at ≤ d.updated_at) cs
    → All (λ (d : Booking). a.updated_at ≤ d.updated_at) (put_by_age b cs)
unfolding put_by_age
put_by_age-All a b [] h k = (h, tt)
put_by_age-All a b (c ∷ cs) h (k, ks) = elim (Bool-cases (leb b.updated_at c.updated_at)) [
  | inl before ↦ rw before (h, (k, ks))
  | inr after ↦ rw after (k, put_by_age-All a b cs h ks)
]

put_by_age-IsByAge : (b : Booking) (cs : List Booking) → IsByAge cs → IsByAge (put_by_age b cs)
unfolding put_by_age
put_by_age-IsByAge b [] h = (tt, tt)
put_by_age-IsByAge b (c ∷ cs) (k, h) = elim (Bool-cases (leb b.updated_at c.updated_at)) [
  | inl before ↦
      rw before ((ground (arith, before), older_than b c cs (ground (arith, before)) k), (k, h))
  | inr after ↦
      rw after (put_by_age-All c b cs (ground (arith, after)) k, put_by_age-IsByAge b cs h)
]

pub stale_rows-IsByAge :
    (now : ℕ) (t : StaleThresholds) (bs : List Booking) → IsByAge (stale_rows now t bs)
unfolding stale_rows
stale_rows-IsByAge now t [] = tt
stale_rows-IsByAge now t (b ∷ bs) =
    let rest = stale_rows-IsByAge now t bs in
    elim (Bool-cases (is_stale now t b)) [
      | inl stale ↦ rw stale (put_by_age-IsByAge b (stale_rows now t bs) rest)
      | inr fresh ↦ rw fresh rest
    ]

pub take-All : (P : Booking → Type 0) (n : ℕ) (bs : List Booking) → All P bs → All P (take n bs)
take-All P zero bs h = tt
take-All P (suc n) [] h = tt
take-All P (suc n) (b ∷ bs) (p, h) = (p, take-All P n bs h)

pub take-IsByAge : (n : ℕ) (bs : List Booking) → IsByAge bs → IsByAge (take n bs)
take-IsByAge zero bs h = tt
take-IsByAge (suc n) [] h = tt
take-IsByAge (suc n) (b ∷ bs) (k, h) =
    (take-All (λ (c : Booking). b.updated_at ≤ c.updated_at) n bs k, take-IsByAge n bs h)

-- What is taken of rows in the order of their age holds a row of theirs, or only rows that are no
-- younger than it.
abbrev pub IsTakenOr : Booking → List Booking → Type 0
IsTakenOr b found = IsRow b found ⊎ All (λ (c : Booking). c.updated_at ≤ b.updated_at) found

of_row : (P : Booking → Type 0) (b : Booking) (bs : List Booking) → All P bs → IsRow b bs → P b
of_row P b [] h inside = elim inside [ ]
of_row P b (c ∷ bs) (p, h) (inl same) = rw same p
of_row P b (c ∷ bs) (p, h) (inr later) = of_row P b bs h later

take-oldest :
    (n : ℕ) (bs : List Booking) (b : Booking) → IsByAge bs → IsRow b bs → IsTakenOr b (take n bs)
take-oldest zero bs b h inside = inr tt
take-oldest (suc n) [] b h inside = inr tt
take-oldest (suc n) (c ∷ bs) b (k, h) (inl same) = inl (inl same)
take-oldest (suc n) (c ∷ bs) b (k, h) (inr later) = elim (take-oldest n bs b h later) [
  | inl inside ↦ inl (inr inside)
  | inr all ↦ inr (of_row (λ d. c.updated_at ≤ d.updated_at) b bs k later, all)
]

put_by_age-IsRow :
    (b c : Booking) (cs : List Booking) → (b ≡ c) ⊎ IsRow b cs → IsRow b (put_by_age c cs)
unfolding put_by_age
put_by_age-IsRow b c [] h = h
put_by_age-IsRow b c (d ∷ cs) h = elim (Bool-cases (leb c.updated_at d.updated_at)) [
  | inl before ↦ rw before h
  | inr after ↦ rw after (elim h [
    | inl same ↦ inr (put_by_age-IsRow b c cs (inl same))
    | inr (inl same) ↦ inl same
    | inr (inr later) ↦ inr (put_by_age-IsRow b c cs (inr later))
  ])
]

module _ (now : ℕ) (t : StaleThresholds) where
  stale_rows-IsRow :
      (b : Booking) (bs : List Booking)
      → is_stale now t b ≡ true
      → IsRow b bs
      → IsRow b (stale_rows now t bs)
  unfolding stale_rows
  stale_rows-IsRow b [] stale h = h
  stale_rows-IsRow b (c ∷ bs) stale (inl same) =
      rw (sym (ap (is_stale now t) same) ∙ stale)
        (put_by_age-IsRow b c (stale_rows now t bs) (inl same))
  stale_rows-IsRow b (c ∷ bs) stale (inr later) =
      let rest = stale_rows-IsRow b bs stale later in
      elim (Bool-cases (is_stale now t c)) [
        | inl due ↦ rw due (put_by_age-IsRow b c (stale_rows now t bs) (inr rest))
        | inr fresh ↦ rw fresh rest
      ]

  -- Of a table's rows, each is fresh, or taken, or no older than all that are taken.
  abbrev pub IsServed : List Booking → Booking → Type 0
  IsServed found b = (is_stale now t b ≡ false) ⊎ IsTakenOr b found

  taken-oldest :
      (m n : ℕ) (bs : List Booking) (b : Booking)
      → IsRow b bs
      → IsServed (take m (take n (stale_rows now t bs))) b
  taken-oldest m n bs b inside = elim (Bool-cases (is_stale now t b)) [
    | inr fresh ↦ inl fresh
    | inl stale ↦
        let rows = stale_rows now t bs in
        let sorted = stale_rows-IsByAge now t bs in
        inr (elim (take-oldest n rows b sorted (stale_rows-IsRow b bs stale inside)) [
          | inl there ↦ take-oldest m (take n rows) b (take-IsByAge n rows sorted) there
          | inr all ↦
              inr (take-All (λ (c : Booking). c.updated_at ≤ b.updated_at) m (take n rows) all)
        ])
  ]

  all_rows :
      (P : Booking → Type 0) (bs : List Booking) → ((b : Booking) → IsRow b bs → P b) → All P bs
  all_rows P [] h = tt
  all_rows P (b ∷ bs) h = (h b (inl refl), all_rows P bs (λ c k. h c (inr k)))

  pub all-IsServed :
      (m n : ℕ) (bs : List Booking) → All (IsServed (take m (take n (stale_rows now t bs)))) bs
  all-IsServed m n bs = all_rows (IsServed _) bs (taken-oldest m n bs)
