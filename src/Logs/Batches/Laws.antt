-- ===== src/Logs/Batches/Laws.antt =====
-- internal/logs/tailer.go: no line is lost on the way to the shipper.
use gameserver_daemon.Common.{
  ◌≤◌, ◌<◌, Bool, true, false, ◌≡◌, refl, sym, ap, subst, ◌∙◌, List, [], ◌∷◌, ◌++◌, length,
  length-append, leb, if◌then◌else◌, All, All-append, arith, Bool-cases, inl, inr,
}
use mathlib.Core.List.{append_assoc, append-nil}
use gameserver_daemon.Logs.Batches.{
  LogEntry, batch_size, Event, received, tick, closed, cancelled, Tail, ship, ship_some, ship_full,
  flush, collect, turn, turns,
}

-- The lines of the batches, one after the other.
unfoldable pub lines_of : List (List LogEntry) → List LogEntry
lines_of [] = []
lines_of (b ∷ bs) = b ++ lines_of bs

lines_of-snoc :
    (bs : List (List LogEntry)) (b : List LogEntry) → lines_of (bs ++ b ∷ []) ≡ lines_of bs ++ b
unfolding lines_of
lines_of-snoc [] b = append-nil b
lines_of-snoc (x ∷ bs) b =
    ap (λ ls. x ++ ls) (lines_of-snoc bs b) ∙ sym (append_assoc x (lines_of bs) b)

-- The lines that come before the loop returns.
unfoldable pub before_end : List Event → List LogEntry
before_end [] = []
before_end (received e ∷ es) = e ∷ before_end es
before_end (tick ∷ es) = before_end es
before_end (closed ∷ es) = []
before_end (cancelled ∷ es) = []

abbrev pub all_lines : Tail → List LogEntry
all_lines t = lines_of t.shipped ++ t.batch

ship-all_lines : (b : List LogEntry) (t : Tail) → all_lines (ship b t) ≡ lines_of t.shipped ++ b
ship-all_lines b t = append-nil (lines_of (t.shipped ++ b ∷ [])) ∙ lines_of-snoc t.shipped b

ship_some-all_lines :
    (b : List LogEntry) (t : Tail)
    → t.batch ≡ b
    → all_lines (ship_some b t) ≡ lines_of t.shipped ++ b
ship_some-all_lines [] t e = ap (λ ls. lines_of t.shipped ++ ls) e
ship_some-all_lines (x ∷ xs) t e = ship-all_lines (x ∷ xs) t

pub flush-all_lines : (t : Tail) → all_lines (flush t) ≡ all_lines t
unfolding flush
flush-all_lines t = ship_some-all_lines t.batch t refl

ship_full-all_lines :
    (b : List LogEntry) (t : Tail) → all_lines (ship_full b t) ≡ lines_of t.shipped ++ b
ship_full-all_lines b t = go (leb batch_size (length b))
  where
    go :
        (full : Bool)
        → all_lines (if full then ship b t else record t { batch = b }) ≡ lines_of t.shipped ++ b
    go true = ship-all_lines b t
    go false = refl

pub collect-all_lines : (e : LogEntry) (t : Tail) → all_lines (collect e t) ≡ all_lines t ++ e ∷ []
unfolding collect
collect-all_lines e t =
    ship_full-all_lines (t.batch ++ e ∷ []) t
    ∙ sym (append_assoc (lines_of t.shipped) t.batch (e ∷ []))

finished-turns : (es : List Event) (t : Tail) → t.finished ≡ true → turns es t ≡ t
unfolding turns
finished-turns [] t e = refl
finished-turns (x ∷ es) t e = ap (λ b. if b then t else turns es (turn x t)) e

turns-cons :
    (e : Event) (es : List Event) (t : Tail)
    → t.finished ≡ false
    → turns (e ∷ es) t ≡ turns es (turn e t)
unfolding turns
turns-cons e es t going = ap (λ b. if b then t else turns es (turn e t)) going

pub flush-finished : (t : Tail) → (flush t).finished ≡ t.finished
unfolding flush
flush-finished t = go t.batch
  where
    go : (b : List LogEntry) → (ship_some b t).finished ≡ t.finished
    go [] = refl
    go (x ∷ xs) = refl

pub collect-finished : (e : LogEntry) (t : Tail) → (collect e t).finished ≡ t.finished
unfolding collect
collect-finished e t = ground arith

ended :
    (es : List Event) (t : Tail)
    → all_lines (turns es (record (flush t) { finished = true })) ≡ all_lines t ++ []
ended es t =
    ap all_lines (finished-turns es (record (flush t) { finished = true }) refl)
    ∙ flush-all_lines t
    ∙ sym (append-nil (all_lines t))

-- Nothing that a tail reads before the loop returns is lost, doubled or put in another order: the batches
-- that have been handed to the shipper, one after the other, and the batch being collected are the lines
-- from before and then the lines that have been read.
pub turns-all_lines :
    (es : List Event) (t : Tail)
    → t.finished ≡ false
    → all_lines (turns es t) ≡ all_lines t ++ before_end es
unfolding turns turn before_end
turns-all_lines [] t going = sym (append-nil (all_lines t))
turns-all_lines (received e ∷ es) t going =
    ap all_lines (turns-cons (received e) es t going)
    ∙ turns-all_lines es (collect e t) (collect-finished e t ∙ going)
    ∙ ap (λ ls. ls ++ before_end es) (collect-all_lines e t)
    ∙ append_assoc (all_lines t) (e ∷ []) (before_end es)
turns-all_lines (tick ∷ es) t going =
    ap all_lines (turns-cons tick es t going)
    ∙ turns-all_lines es (flush t) (flush-finished t ∙ going)
    ∙ ap (λ ls. ls ++ before_end es) (flush-all_lines t)
turns-all_lines (closed ∷ es) t going = ap all_lines (turns-cons closed es t going) ∙ ended es t
turns-all_lines (cancelled ∷ es) t going =
    ap all_lines (turns-cons cancelled es t going) ∙ ended es t

-- A batch that may be shipped.
abbrev pub FitsBatch : List LogEntry → Type 0
FitsBatch b = (1 ≤ length b) × (length b ≤ batch_size)

abbrev pub IsBounded : Tail → Type 0
IsBounded t = (length t.batch < batch_size) × All FitsBatch t.shipped

ship-IsBounded : (b : List LogEntry) (t : Tail) → FitsBatch b → IsBounded t → IsBounded (ship b t)
ship-IsBounded b t fits h = (omega arith, All-append FitsBatch t.shipped (b ∷ []) h.1 (fits, tt))

flush-IsBounded : (t : Tail) → IsBounded t → IsBounded (flush t)
unfolding flush
flush-IsBounded t h = go t.batch h.0
  where
    go : (b : List LogEntry) → length b < batch_size → IsBounded (ship_some b t)
    go [] k = h
    go (x ∷ xs) k = ship-IsBounded (x ∷ xs) t (omega arith, omega arith) h

collect-IsBounded : (e : LogEntry) (t : Tail) → IsBounded t → IsBounded (collect e t)
unfolding collect
collect-IsBounded e t h = elim (Bool-cases (leb batch_size (length (t.batch ++ e ∷ [])))) [
  | inl full ↦
      rw full
        (ship-IsBounded (t.batch ++ e ∷ []) t (ground (arith, length-append t.batch (e ∷ []))) h)
  | inr room ↦ rw room (ground arith, h.1)
]

turn-IsBounded : (e : Event) (t : Tail) → IsBounded t → IsBounded (turn e t)
unfolding turn
turn-IsBounded (received e) t h = collect-IsBounded e t h
turn-IsBounded tick t h = flush-IsBounded t h
turn-IsBounded closed t h = flush-IsBounded t h
turn-IsBounded cancelled t h = flush-IsBounded t h

-- Whatever happens, a batch that is shipped has at least one line and at most a hundred, and the batch
-- being collected has fewer than a hundred. Both are so for the tail that one starts from.
pub turns-IsBounded : (es : List Event) (t : Tail) → IsBounded t → IsBounded (turns es t)
unfolding turns
turns-IsBounded [] t h = h
turns-IsBounded (e ∷ es) t h = elim (Bool-cases t.finished) [
  | inl over ↦ subst IsBounded (sym (finished-turns (e ∷ es) t over)) h
  | inr going ↦
      subst IsBounded (sym (turns-cons e es t going))
        (turns-IsBounded es (turn e t) (turn-IsBounded e t h))
]
