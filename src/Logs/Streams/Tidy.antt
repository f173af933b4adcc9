-- ===== src/Logs/Streams/Tidy.antt =====
-- internal/logs/tailer.go: what holds of a tail whose lines all fit the scanner.
use gameserver_daemon.Common.{
  String, Bool, true, false, ◌≡◌, refl, subst, Option, none, some, List, [], ◌∷◌, ◌++◌, All,
  All-append,
}
use gameserver_daemon.Logs.Batches.{
  LogEntry, Tail, closed, flush, received, tick, cancelled, turn, ship_some,
}
use gameserver_daemon.Logs.Batches.Laws.{collect-finished, flush-finished}
use gameserver_daemon.Logs.Streams.{
  Stream, stdout, stderr, fits, Scanner, Streams, scanner_of, with_scanner, opened, Step, read,
  write, end_of_log, lost_log, send, too_long, exhausted, abandon, receive, time, finish, cancel,
  quit, Later, here, next,
}

abbrev pub AllFit : List String → Type 0
AllFit = All (λ l. fits l ≡ true)

abbrev pub LogFits : List (Stream × String) → Type 0
LogFits = All (λ (x : Stream × String). fits x.1 ≡ true)

abbrev pub HeldFits : Option (Stream × String) → Type 0
HeldFits none = Unit {0}
HeldFits (some x) = fits x.1 ≡ true

-- A scanner that has stopped, without the context being done, has passed on all that it will get.
abbrev pub Settled : Bool → Bool → Scanner → Type 0
Settled done shut c = c.running ≡ false → done ≡ false → (c.waiting ≡ []) × (shut ≡ true)

pub record IsTidy (s : Streams) : Type 0 where
  pub out : Settled s.done s.closed s.out
  pub errors : Settled s.done s.closed s.errors
  pub free : s.closed ≡ true → s.held ≡ none
  pub over :
      s.tail.finished ≡ true
      → s.done ≡ false
      → (s.lines ≡ []) × (s.tail.batch ≡ []) × (s.out.running ≡ false) × (s.errors.running ≡ false)
  pub left_fits : LogFits s.left
  pub held_fits : HeldFits s.held
  pub out_fits : AllFit s.out.waiting
  pub errors_fits : AllFit s.errors.waiting

flush_empties : (b : List LogEntry) (t : Tail) → t.batch ≡ b → (ship_some b t).batch ≡ []
flush_empties [] t e = e
flush_empties (x ∷ xs) t e = refl

pub opened-IsTidy : (log : List (Stream × String)) → LogFits log → IsTidy (opened log)
opened-IsTidy log h = record {
  out = λ e d. cc;
  errors = λ e d. cc;
  free = λ e. cc;
  over = λ e d. cc;
  left_fits = h;
  held_fits = tt;
  out_fits = tt;
  errors_fits = tt;
}

read-IsTidy :
    (s : Streams) (k : Stream) (l : String) (rest : List (Stream × String))
    → s.closed ≡ false
    → s.left ≡ (k, l) ∷ rest
    → IsTidy s
    → IsTidy (record s { left = rest; held = some (k, l) })
read-IsTidy s k l rest reading more h =
    let fitting : LogFits ((k, l) ∷ rest) = subst LogFits more h.left_fits in
    record {
      out = h.out;
      errors = h.errors;
      free = λ e. cc;
      over = h.over;
      left_fits = fitting.1;
      held_fits = fitting.0;
      out_fits = h.out_fits;
      errors_fits = h.errors_fits;
    }

write-IsTidy :
    (s : Streams) (k : Stream) (l : String)
    → s.held ≡ some (k, l)
    → (scanner_of k s).running ≡ true
    → IsTidy s
    → IsTidy (
        with_scanner k
          (record { waiting = (scanner_of k s).waiting ++ l ∷ []; running = true })
          (record s { held = none }))
write-IsTidy s k l mine runs h = go k mine runs
  where
    fitting : (i : Stream) → s.held ≡ some (i, l) → fits l ≡ true
    fitting i e = subst HeldFits e h.held_fits

    grown : (w : List String) → AllFit w → fits l ≡ true → AllFit (w ++ l ∷ [])
    grown w a b = All-append (λ x. fits x ≡ true) w (l ∷ []) a (b, tt)

    go :
        (i : Stream)
        → s.held ≡ some (i, l)
        → (scanner_of i s).running ≡ true
        → IsTidy (
            with_scanner i
              (record { waiting = (scanner_of i s).waiting ++ l ∷ []; running = true })
              (record s { held = none }))
    go stdout e r = record {
      out = λ x y. cc;
      errors = h.errors;
      free = λ x. refl;
      over = λ x y. cc ((h.over x y).2, r);
      left_fits = h.left_fits;
      held_fits = tt;
      out_fits = grown s.out.waiting h.out_fits (fitting stdout e);
      errors_fits = h.errors_fits;
    }
    go stderr e r = record {
      out = h.out;
      errors = λ x y. cc;
      free = λ x. refl;
      over = λ x y. cc ((h.over x y).3, r);
      left_fits = h.left_fits;
      held_fits = tt;
      out_fits = h.out_fits;
      errors_fits = grown s.errors.waiting h.errors_fits (fitting stderr e);
    }

changed-IsTidy :
    (s : Streams) (k : Stream) (c : Scanner) (ls : List LogEntry)
    → (scanner_of k s).running ≡ true
    → Settled s.done s.closed c
    → AllFit c.waiting
    → IsTidy s
    → IsTidy (with_scanner k c (record s { lines = ls }))
changed-IsTidy s stdout c ls runs settled fit h = record {
  out = settled;
  errors = h.errors;
  free = h.free;
  over = λ x y. cc ((h.over x y).2, runs);
  left_fits = h.left_fits;
  held_fits = h.held_fits;
  out_fits = fit;
  errors_fits = h.errors_fits;
}
changed-IsTidy s stderr c ls runs settled fit h = record {
  out = h.out;
  errors = settled;
  free = h.free;
  over = λ x y. cc ((h.over x y).3, runs);
  left_fits = h.left_fits;
  held_fits = h.held_fits;
  out_fits = h.out_fits;
  errors_fits = fit;
}

turned-IsTidy :
    (s : Streams) (t : Tail) (ls : List LogEntry)
    → (t.finished ≡ true
        → s.done ≡ false
        → (ls ≡ []) × (t.batch ≡ []) × (s.out.running ≡ false) × (s.errors.running ≡ false))
    → IsTidy s
    → IsTidy (record s { lines = ls; tail = t })
turned-IsTidy s t ls over h = record {
  out = h.out;
  errors = h.errors;
  free = h.free;
  over = over;
  left_fits = h.left_fits;
  held_fits = h.held_fits;
  out_fits = h.out_fits;
  errors_fits = h.errors_fits;
}

shut-IsTidy : (s : Streams) → s.held ≡ none → IsTidy s → IsTidy (record s { closed = true })
shut-IsTidy s free h = record {
  out = λ x y. ((h.out x y).0, refl);
  errors = λ x y. ((h.errors x y).0, refl);
  free = λ x. free;
  over = h.over;
  left_fits = h.left_fits;
  held_fits = h.held_fits;
  out_fits = h.out_fits;
  errors_fits = h.errors_fits;
}

cancel-IsTidy : (s : Streams) → IsTidy s → IsTidy (record s { done = true })
cancel-IsTidy s h = record {
  out = λ x y. cc;
  errors = λ x y. cc;
  free = h.free;
  over = λ x y. cc;
  left_fits = h.left_fits;
  held_fits = h.held_fits;
  out_fits = h.out_fits;
  errors_fits = h.errors_fits;
}

waiting_fits : (k : Stream) (s : Streams) → IsTidy s → AllFit (scanner_of k s).waiting
waiting_fits stdout s h = h.out_fits
waiting_fits stderr s h = h.errors_fits

Step-IsTidy : {s t : Streams} → Step s t → IsTidy s → IsTidy t
unfolding turn flush
Step-IsTidy (read s k l rest reading free more) h = read-IsTidy s k l rest reading more h
Step-IsTidy (write s k l mine reads) h = write-IsTidy s k l mine reads h
Step-IsTidy (end_of_log s free over) h = shut-IsTidy s free h
Step-IsTidy (lost_log s free) h = shut-IsTidy s free h
Step-IsTidy (send s k l rest now runs waits fit room) h =
    let fitting : AllFit (l ∷ rest) = subst AllFit waits (waiting_fits k s h) in
    changed-IsTidy s k (record { waiting = rest; running = true }) _ runs (λ x y. cc) fitting.1 h
Step-IsTidy (too_long s k l rest runs waits long) h =
    let fitting : AllFit (l ∷ rest) = subst AllFit waits (waiting_fits k s h) in
    absurd (cc (fitting.0, long))
Step-IsTidy (exhausted s k runs waits shut) h =
    changed-IsTidy s k (record { waiting = []; running = false }) s.lines runs (λ x y. (refl, shut))
      tt h
Step-IsTidy (abandon s k l rest runs waits fit over) h =
    changed-IsTidy s k (record { waiting = l ∷ rest; running = false }) s.lines runs
      (λ x y. cc (over, y)) (subst AllFit waits (waiting_fits k s h)) h
Step-IsTidy (receive s e rest going more) h =
    turned-IsTidy s (turn (received e) s.tail) rest
      (λ x y. cc (collect-finished e s.tail, going, x)) h
Step-IsTidy (time s going) h =
    turned-IsTidy s (turn tick s.tail) s.lines (λ x y. cc (flush-finished s.tail, going, x)) h
Step-IsTidy (finish s going empty out_over errors_over) h =
    turned-IsTidy s (turn closed s.tail) s.lines
      (λ x y. (empty, flush_empties s.tail.batch s.tail refl, out_over, errors_over)) h
Step-IsTidy (cancel s) h = cancel-IsTidy s h
Step-IsTidy (quit s going over) h =
    turned-IsTidy s (turn cancelled s.tail) s.lines (λ x y. cc (over, y)) h

pub Later-IsTidy : {s t : Streams} → IsTidy s → Later s t → IsTidy t
Later-IsTidy h here = h
Later-IsTidy h (next before step) = Step-IsTidy step (Later-IsTidy h before)
