-- ===== src/World/Refines.antt =====
-- The operations as sequences of issued statements: whatever the other sessions commit between two
-- statements, and whichever of them fail, the tables that an operation leaves are reached by
-- statements that the program issues.
use booking_orchestration_se.Base.{
  ℕ, ◌≡◌, true, false, List, [], ◌∷◌, All, refl, if◌then◌else◌, Bool, String, Option, arith,
}
use booking_orchestration_se.Store.Table.{Db}
use booking_orchestration_se.Store.Statement.{Statement, exec}
use booking_orchestration_se.World.{
  Fate, answered, refused, lost, Turn, World, M, ◌>>=◌, pure, exec_all, next_turn, later_turns,
  committed, sql,
}
use booking_orchestration_se.World.Charge.{IsCharged, Reach-attempts_of, exec_all-taken}
use booking_orchestration_se.World.Reach.{IsIssued, Reach, here, next, Reach-trans}

module _ (budget : ℕ) where
  -- The other sessions run this program too.
  abbrev pub IsFair : List Turn → Type 0
  IsFair ts = All (λ (t : Turn). All (IsIssued budget) t.others) ts

  pub exec_all-Reach :
      (ss : List Statement) (db : Db) → All (IsIssued budget) ss → Reach budget db (exec_all ss db)
  exec_all-Reach [] db h = here
  exec_all-Reach (s ∷ ss) db (h, hs) =
      Reach-trans (next here s h refl) (exec_all-Reach ss (exec s db) hs)

  pub others-IsIssued : (ts : List Turn) → IsFair ts → All (IsIssued budget) (next_turn ts).others
  others-IsIssued [] h = tt
  others-IsIssued (t ∷ ts) h = h.0

  later-IsFair : (ts : List Turn) → IsFair ts → IsFair (later_turns ts)
  later-IsFair [] h = h
  later-IsFair (t ∷ ts) h = h.1

  committed-Reach :
      (f : Fate) (s : Statement) {db u : Db}
      → IsIssued budget s
      → Reach budget db u
      → Reach budget db (committed f s u)
  committed-Reach answered s h r = next r s h refl
  committed-Reach refused s h r = r
  committed-Reach lost s h r = next r s h refl

module _ (budget : ℕ) (parse : String → Option ℕ) where
  -- `m` issues statements of this program, leaves the sessions fair, and makes no call that its
  -- row does not count.
  pub record Refines {A : Type 0} (m : M A) : Type 0 where
    pub runs :
        (w : World)
        → IsFair budget w.schedule
        → Reach budget w.db (m w).1.db × IsFair budget (m w).1.schedule × IsCharged parse w (m w).1

  -- What makes no call and lets no other session move.
  pub silent-IsCharged :
      (w w' : World)
      → w'.calls ≡ w.calls
      → w'.elsewhere ≡ w.elsewhere
      → Reach budget w.db w'.db
      → IsCharged parse w w'
  silent-IsCharged w w' same still r id =
      let grown = Reach-attempts_of budget id r in rw (same, still) (omega arith)

  -- A statement, after the other sessions' ones.
  sql-IsCharged :
      {A : Type 0} (s : Statement) (answer : Db → A) (w : World)
      → IsIssued budget s
      → IsFair budget w.schedule
      → IsCharged parse w (sql s answer w).1
  unfolding sql
  sql-IsCharged s answer w h fair id =
      let t = next_turn w.schedule in
      let others =
        exec_all-taken budget id t.others w.db w.elsewhere
          (others-IsIssued budget w.schedule fair) in
      let found = exec_all t.others w.db in
      let grown =
        Reach-attempts_of budget {s = found} id (committed-Reach budget t.fate s h here) in
      omega (arith, others, grown)

  pub IsCharged-trans :
      (u v w : World) → IsCharged parse u v → IsCharged parse v w → IsCharged parse u w
  IsCharged-trans u v w h k id = let first = h id in let second = k id in omega arith

  pub sql-Refines :
      {A : Type 0} (s : Statement) (answer : Db → A) → IsIssued budget s → Refines (sql s answer)
  unfolding sql
  sql-Refines s answer h = record {
    runs = λ w fair.
        let reach = committed-Reach budget (next_turn w.schedule).fate s h (
          exec_all-Reach budget (next_turn w.schedule).others w.db
            (others-IsIssued budget w.schedule fair)) in
        (reach, later-IsFair budget w.schedule fair, sql-IsCharged s answer w h fair);
  }

  pub pure-Refines : {A : Type 0} (a : A) → Refines (pure a)
  unfolding pure
  pure-Refines a = record { runs = λ w fair. (here, fair, silent-IsCharged w w refl refl here) }

  pub bind-Refines :
      {A B : Type 0} (m : M A) (f : A → M B)
      → Refines m
      → ((a : A) → Refines (f a))
      → Refines (m >>= f)
  unfolding ◌>>=◌
  bind-Refines m f hm hf = record {
    runs = λ w fair.
        let first = hm.runs w fair in
        let second = (hf (m w).0).runs (m w).1 first.1 in
        (
          Reach-trans first.0 second.0,
          second.1,
          IsCharged-trans w (m w).1 (f (m w).0 (m w).1).1 first.2 second.2,
        );
  }

  pub if-Refines :
      {A : Type 0} (b : Bool) (m n : M A)
      → (b ≡ true → Refines m)
      → (b ≡ false → Refines n)
      → Refines (if b then m else n)
  if-Refines true m n hm hn = hm refl
  if-Refines false m n hm hn = hn refl
