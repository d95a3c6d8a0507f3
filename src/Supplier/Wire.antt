-- ===== src/Supplier/Wire.antt =====
-- The counter of bytes at the socket (internal/supplier/conn.go) and the trace that Book keeps of a
-- connection (internal/supplier/http.go). What the transport does is a list of events.
use Prim.Native.Nat.{◌%◌, ◌^◌}
use booking_orchestration_se.Base.{
  ℕ, ◌+◌, ◌<◌, ◌≡◌, Bool, true, false, ◌||◌, not, List, [], ◌∷◌, ◌==◌, arith, suc, ap, ◌∙◌, ◌++◌,
  refl, ◌≤◌,
}

-- `countingConn.Write` that wrote some bytes, or `GotConn`.
pub data WireEvent : Type 0 where
  wrote : ℕ → WireEvent
  got_conn : WireEvent

-- `written`, `baseline` and `connected`.
pub record Trace : Type 0 where
  pub written : ℕ
  pub baseline : ℕ
  pub connected : Bool

abbrev pub no_trace : Trace
no_trace = record { written = 0; baseline = 0; connected = false }

-- `atomic.Int64.Add`.
abbrev pub add_int64 : ℕ → ℕ → ℕ
add_int64 a b = (a + b) % 2 ^ 64

unfoldable pub observe : WireEvent → Trace → Trace
observe (wrote n) t = record t { written = add_int64 t.written n }
observe got_conn t = record t { baseline = t.written; connected = true }

unfoldable pub observe_all : List WireEvent → Trace → Trace
observe_all [] t = t
observe_all (e ∷ es) t = observe_all es (observe e t)

-- `!connected.Load() || written.Load() == baseline.Load()`.
unfoldable pub nothing_sent : Trace → Bool
nothing_sent t = not t.connected || t.written == t.baseline

-- All bytes that were written.
abbrev pub total_bytes : List WireEvent → ℕ
total_bytes [] = 0
total_bytes (wrote n ∷ es) = n + total_bytes es
total_bytes (got_conn ∷ es) = total_bytes es

-- How many connections were made.
abbrev pub connections : List WireEvent → ℕ
connections [] = 0
connections (wrote n ∷ es) = connections es
connections (got_conn ∷ es) = suc (connections es)

-- The bytes that can be a request's: all that were written after the first connection, whatever was
-- connected later. What was written before it is the setup of the connection.
abbrev pub request_bytes : List WireEvent → ℕ
request_bytes [] = 0
request_bytes (wrote k ∷ es) = request_bytes es
request_bytes (got_conn ∷ es) = total_bytes es

add_int64_small : (a b : ℕ) → a + b < 2 ^ 63 → add_int64 a b ≡ a + b
add_int64_small a b h = omega arith

regroup : (n k m : ℕ) → n + k + m ≡ n + (k + m)
regroup n k m = omega arith

zero_added : (m : ℕ) → 0 + m ≡ m
zero_added m = omega arith

-- Bytes on a connection, after which there is no other.
nothing_sent-connected :
    (es : List WireEvent) (t : Trace) (n : ℕ)
    → connections es ≡ 0
    → t.connected ≡ true
    → t.written ≡ t.baseline + n
    → t.written + total_bytes es < 2 ^ 63
    → nothing_sent (observe_all es t) ≡ n + total_bytes es == 0
unfolding nothing_sent observe_all observe
nothing_sent-connected [] t n single on h small = ground (arith, on, h)
nothing_sent-connected (got_conn ∷ es) t n single on h small = ground (arith, single)
nothing_sent-connected (wrote k ∷ es) t n single on h small =
    let counted : add_int64 t.written k ≡ t.written + k =
      add_int64_small t.written k (omega arith) in
    nothing_sent-connected es (observe (wrote k) t) (n + k) single on (ground (arith, counted))
      (ground (arith, counted))
    ∙ ap (λ m. m == 0) (regroup n k (total_bytes es))

-- Until there is a connection nothing is a request's.
pub nothing_sent-observe_all :
    (es : List WireEvent) (t : Trace)
    → connections es ≤ 1
    → t.connected ≡ false
    → t.written + total_bytes es < 2 ^ 63
    → nothing_sent (observe_all es t) ≡ request_bytes es == 0
unfolding nothing_sent observe_all observe
nothing_sent-observe_all [] t single off small = ground (arith, off)
nothing_sent-observe_all (wrote k ∷ es) t single off small =
    let counted : add_int64 t.written k ≡ t.written + k =
      add_int64_small t.written k (omega arith) in
    nothing_sent-observe_all es (observe (wrote k) t) single off (ground (arith, counted))
nothing_sent-observe_all (got_conn ∷ es) t single off small =
    nothing_sent-connected es (observe got_conn t) 0 (omega (arith, single)) refl (omega arith)
      small
    ∙ ap (λ m. m == 0) (zero_added (total_bytes es))

-- One more connection, after which nothing is written.
abbrev pub reconnected : List WireEvent → List WireEvent
reconnected es = es ++ got_conn ∷ []

-- A connection after which nothing was written hides what was written before it.
pub nothing_sent-last :
    (es : List WireEvent) (t : Trace) → nothing_sent (observe_all (reconnected es) t) ≡ true
unfolding nothing_sent observe_all observe
nothing_sent-last [] t = ground arith
nothing_sent-last (e ∷ es) t = nothing_sent-last es (observe e t)

total_bytes-last : (es : List WireEvent) → total_bytes (reconnected es) ≡ total_bytes es
total_bytes-last [] = refl
total_bytes-last (wrote n ∷ es) = ap (λ m. n + m) (total_bytes-last es)
total_bytes-last (got_conn ∷ es) = total_bytes-last es

pub request_bytes-last : (es : List WireEvent) → request_bytes (reconnected es) ≡ request_bytes es
request_bytes-last [] = refl
request_bytes-last (wrote n ∷ es) = request_bytes-last es
request_bytes-last (got_conn ∷ es) = total_bytes-last es
