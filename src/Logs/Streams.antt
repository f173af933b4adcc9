-- ===== src/Logs/Streams.antt =====
-- internal/logs/tailer.go: one tail with its goroutines. The demultiplexer hands the container's lines to
-- two scanners, each scanner sends its lines to one channel, and the loop collects what it receives. The
-- steps below are all the interleavings. What reads a frame of the log as lines, `StdCopy` and the pipes,
-- is seen at whole lines: a line is handed over when its stream's scanner still reads.
pub mod Lists
pub mod Accounts
pub mod Tidy
pub mod Ends
pub mod Blocked
pub mod Forward
pub mod Drains
use gameserver_daemon.Common.{
  ℕ, ◌^◌, ◌<◌, String, Bool, true, false, ◌≡◌, Option, none, some, List, [], ◌∷◌, ◌++◌, length, ltb,
  ◌==◌, if◌then◌else◌,
}
use gameserver_daemon.Common.Strings.{size}
use gameserver_daemon.Errors.{Result, ok, err}
use gameserver_daemon.Logs.Batches.{
  LogEntry, Tail, new_tail, received, tick, closed, cancelled, turn,
}

pub data Stream : Type 0 where
  stdout stderr : Stream

-- The name that a line carries.
abbrev pub name_of : Stream → String
name_of stdout = "stdout"
name_of stderr = "stderr"

-- A scanner: the lines that have been handed to it, and whether its goroutine still runs.
pub record Scanner : Type 0 where
  pub waiting : List String
  pub running : Bool

-- `left` are the lines that the demultiplexer has not read from the log, and `held` is the one that it is
-- writing to a pipe; when it returns, both pipes are `closed`. `lines` is the channel, and `done` is set
-- when the context of the tail is.
pub record Streams : Type 0 where
  pub left : List (Stream × String)
  pub held : Option (Stream × String)
  pub closed : Bool
  pub out : Scanner
  pub errors : Scanner
  pub lines : List LogEntry
  pub tail : Tail
  pub done : Bool

abbrev pub scanner_of : Stream → Streams → Scanner
scanner_of stdout s = s.out
scanner_of stderr s = s.errors

abbrev pub with_scanner : Stream → Scanner → Streams → Streams
with_scanner stdout c s = record s { out = c }
with_scanner stderr c s = record s { errors = c }

-- The capacity of the channel.
abbrev pub capacity : ℕ
capacity = 256

-- A line longer than `bufio.MaxScanTokenSize` allows ends the scanning.
abbrev pub fits : String → Bool
fits l = ltb (size l) (2 ^ 16)

-- A tail that has opened a log of these lines.
abbrev pub opened : List (Stream × String) → Streams
opened log = record {
  left = log;
  held = none;
  closed = false;
  out = record { waiting = []; running = true };
  errors = record { waiting = []; running = true };
  lines = [];
  tail = new_tail;
  done = false;
}

-- The scope under which the log is asked for.
abbrev pub scope_of : String → String → String
scope_of project environment = if project == "" then environment else project

-- The first part of `tail`: a log that cannot be opened ends it.
unfoldable pub open_tail :
    {C : Type 0}
    → (String → String → Bool → C → Result (List (Stream × String)))
    → String
    → String
    → String
    → C
    → Option Streams
open_tail logs workload project environment c =
    elim (logs (scope_of project environment) workload true c) [
      | err e ↦ none
      | ok log ↦ some (opened log)
    ]

pub data Step : Streams → Streams → Type 0 where
  -- `StdCopy` reads a line, writes it to the pipe of its stream, and returns at the end of the log or
  -- when the log cannot be read on.
  read :
      (s : Streams) (st : Stream) (l : String) (rest : List (Stream × String))
      → s.closed ≡ false
      → s.held ≡ none
      → s.left ≡ (st, l) ∷ rest
      → Step s (record s { left = rest; held = some (st, l) })
  write :
      (s : Streams) (st : Stream) (l : String)
      → s.held ≡ some (st, l)
      → (scanner_of st s).running ≡ true
      → Step s (
          with_scanner st
            (record { waiting = (scanner_of st s).waiting ++ l ∷ []; running = true })
            (record s { held = none }))
  end_of_log : (s : Streams) → s.held ≡ none → s.left ≡ [] → Step s (record s { closed = true })
  lost_log : (s : Streams) → s.held ≡ none → Step s (record s { closed = true })
  -- A scanner sends a line.
  send :
      (s : Streams) (st : Stream) (l : String) (rest : List String) (now : ℕ)
      → (scanner_of st s).running ≡ true
      → (scanner_of st s).waiting ≡ l ∷ rest
      → fits l ≡ true
      → length s.lines < capacity
      → Step s (
          with_scanner st
            (record { waiting = rest; running = true })
            (record s {
              lines = s.lines ++ record { ts = now; stream = name_of st; line = l } ∷ [];
            }))
  -- `Scan` answers false: the line is too long, or the pipe has been closed.
  too_long :
      (s : Streams) (st : Stream) (l : String) (rest : List String)
      → (scanner_of st s).running ≡ true
      → (scanner_of st s).waiting ≡ l ∷ rest
      → fits l ≡ false
      → Step s (with_scanner st (record { waiting = l ∷ rest; running = false }) s)
  exhausted :
      (s : Streams) (st : Stream)
      → (scanner_of st s).running ≡ true
      → (scanner_of st s).waiting ≡ []
      → s.closed ≡ true
      → Step s (with_scanner st (record { waiting = []; running = false }) s)
  -- A scanner that has a line sees that the context is done.
  abandon :
      (s : Streams) (st : Stream) (l : String) (rest : List String)
      → (scanner_of st s).running ≡ true
      → (scanner_of st s).waiting ≡ l ∷ rest
      → fits l ≡ true
      → s.done ≡ true
      → Step s (with_scanner st (record { waiting = l ∷ rest; running = false }) s)
  -- The loop receives a line, sees the ticker, or finds that the channel is closed and empty.
  receive :
      (s : Streams) (e : LogEntry) (rest : List LogEntry)
      → s.tail.finished ≡ false
      → s.lines ≡ e ∷ rest
      → Step s (record s { lines = rest; tail = turn (received e) s.tail })
  time : (s : Streams) → s.tail.finished ≡ false → Step s (record s { tail = turn tick s.tail })
  finish :
      (s : Streams)
      → s.tail.finished ≡ false
      → s.lines ≡ []
      → s.out.running ≡ false
      → s.errors.running ≡ false
      → Step s (record s { tail = turn closed s.tail })
  -- The context of the tail is cancelled, and the loop sees it.
  cancel : (s : Streams) → Step s (record s { done = true })
  quit :
      (s : Streams)
      → s.tail.finished ≡ false
      → s.done ≡ true
      → Step s (record s { tail = turn cancelled s.tail })

-- What comes after a state.
pub data Later (s : Streams) : Streams → Type 0 where
  here : Later s s
  next : {t u : Streams} → Later s t → Step t u → Later s u
