-- ===== src/Logs/Streams/Forward.antt =====
-- internal/logs/tailer.go: steps that pass on what a tail has, where its context is not done.
use gameserver_daemon.Common.{
  String, Bool, true, false, ◌≡◌, refl, ◌∙◌, Option, none, some, List, [], ◌∷◌, arith,
}
use gameserver_daemon.Logs.Batches.{LogEntry, Tail, received, turn}
use gameserver_daemon.Logs.Batches.Laws.{collect-finished}
use gameserver_daemon.Logs.Streams.{
  Stream, stdout, stderr, name_of, fits, Scanner, Streams, Step, read, write, send, receive, Later,
  here, next,
}
use gameserver_daemon.Logs.Streams.Tidy.{AllFit, LogFits}
use gameserver_daemon.Logs.Streams.Blocked.{Later-trans}

abbrev pub reading : List String → Scanner
reading w = record { waiting = w; running = true }

-- A state by the scanner of a stream and the other one, where the context is not done.
abbrev pub state :
    List (Stream × String)
    → Option (Stream × String)
    → Bool
    → Stream
    → Scanner
    → Scanner
    → List LogEntry
    → Tail
    → Streams
state left held shut stdout mine other ls t = record {
  left = left;
  held = held;
  closed = shut;
  out = mine;
  errors = other;
  lines = ls;
  tail = t;
  done = false;
}
state left held shut stderr mine other ls t = record {
  left = left;
  held = held;
  closed = shut;
  out = other;
  errors = mine;
  lines = ls;
  tail = t;
  done = false;
}

abbrev entry_of : Stream → String → LogEntry
entry_of st l = record { ts = 0; stream = name_of st; line = l }

module _ (left : List (Stream × String)) (held : Option (Stream × String)) (shut : Bool) where
  send_at :
      (st : Stream) (l : String) (w : List String) (other : Scanner) (t : Tail)
      → fits l ≡ true
      → Step
          (state left held shut st (reading (l ∷ w)) other [] t)
          (state left held shut st (reading w) other (entry_of st l ∷ []) t)
  send_at stdout l w other t fit = send _ stdout l w 0 refl refl fit (omega arith)
  send_at stderr l w other t fit = send _ stderr l w 0 refl refl fit (omega arith)

  receive_at :
      (st : Stream) (mine other : Scanner) (e : LogEntry) (ls : List LogEntry) (t : Tail)
      → t.finished ≡ false
      → Step
          (state left held shut st mine other (e ∷ ls) t)
          (state left held shut st mine other ls (turn (received e) t))
  receive_at stdout mine other e ls t going = receive _ e ls going refl
  receive_at stderr mine other e ls t going = receive _ e ls going refl

  going_on : (e : LogEntry) (t : Tail) → t.finished ≡ false → (turn (received e) t).finished ≡ false
  unfolding turn
  going_on e t going = collect-finished e t ∙ going

  -- The channel is emptied.
  pub receives :
      (st : Stream) (mine other : Scanner) (ls : List LogEntry) (t : Tail)
      → t.finished ≡ false
      → (u : Tail) × (u.finished ≡ false)
        × Later (state left held shut st mine other ls t) (state left held shut st mine other [] u)
  receives st mine other [] t going = (t, going, here)
  receives st mine other (e ∷ ls) t going =
      let (u, still, rest) = receives st mine other ls (turn (received e) t) (going_on e t going) in
      (u, still, Later-trans (next here (receive_at st mine other e ls t going)) rest)

  -- A scanner that runs passes on what it has.
  pub scans :
      (st : Stream) (w : List String) (other : Scanner) (t : Tail)
      → AllFit w
      → t.finished ≡ false
      → (u : Tail) × (u.finished ≡ false)
        × Later
            (state left held shut st (reading w) other [] t)
            (state left held shut st (reading []) other [] u)
  scans st [] other t fit going = (t, going, here)
  scans st (l ∷ w) other t fit going =
      let e = entry_of st l in
      let (u, still, rest) = scans st w other (turn (received e) t) fit.1 (going_on e t going) in
      (
        u,
        still,
        Later-trans
            (next (next here (send_at st l w other t fit.0))
              (receive_at st (reading w) other e [] t going))
            rest,
      )

write_at :
    (left : List (Stream × String)) (st : Stream) (l : String) (other : Scanner) (t : Tail)
    → Step
        (state left (some (st, l)) false st (reading []) other [] t)
        (state left none false st (reading (l ∷ [])) other [] t)
write_at left stdout l other t = write _ stdout l refl refl
write_at left stderr l other t = write _ stderr l refl refl

-- The line that is being copied is passed on.
pub copies_held :
    (left : List (Stream × String)) (st : Stream) (l : String) (t : Tail)
    → fits l ≡ true
    → t.finished ≡ false
    → (u : Tail) × (u.finished ≡ false)
      × Later
          (state left (some (st, l)) false stdout (reading []) (reading []) [] t)
          (state left none false stdout (reading []) (reading []) [] u)
copies_held left st l t fit going = go st
  where
    step :
        (k : Stream)
        → (u : Tail) × (u.finished ≡ false)
          × Later
              (state left (some (k, l)) false k (reading []) (reading []) [] t)
              (state left none false k (reading []) (reading []) [] u)
    step k =
        let (u, still, rest) = scans left none false k (l ∷ []) (reading []) t (fit, tt) going in
        (u, still, Later-trans (next here (write_at left k l (reading []) t)) rest)

    go :
        (k : Stream)
        → (u : Tail) × (u.finished ≡ false)
          × Later
              (state left (some (k, l)) false stdout (reading []) (reading []) [] t)
              (state left none false stdout (reading []) (reading []) [] u)
    go stdout = step stdout
    go stderr = step stderr

-- All that is left of the log is passed on.
pub copies :
    (left : List (Stream × String)) (t : Tail)
    → LogFits left
    → t.finished ≡ false
    → (u : Tail) × (u.finished ≡ false)
      × Later
          (state left none false stdout (reading []) (reading []) [] t)
          (state [] none false stdout (reading []) (reading []) [] u)
copies [] t fit going = (t, going, here)
copies ((k, l) ∷ left) t fit going =
    let (u, still, one) = copies_held left k l t fit.0 going in
    let (v, yet, rest) = copies left u fit.1 still in
    (v, yet, Later-trans (Later-trans (next here (read _ k l left refl refl refl)) one) rest)
