-- ===== src/Tests/StreamRuns.antt =====
-- Runs of a tail with its goroutines, on a log with a line for each stream and one more.
use gameserver_daemon.Common.{String, true, false, ◌≡◌, refl, some, List, [], ◌∷◌, ◌++◌, arith}
use gameserver_daemon.Common.Strings.{size}
use gameserver_daemon.Logs.Batches.{LogEntry, turn, collect, received, closed, cancelled}
use gameserver_daemon.Logs.Batches.Laws.{all_lines, lines_of}
use gameserver_daemon.Logs.Streams.{
  Stream, stdout, stderr, Streams, scanner_of, opened, read, write, end_of_log, send, exhausted,
  abandon, receive, finish, cancel, quit, Later, here, next,
}
use gameserver_daemon.Logs.Streams.Lists.{on, sent_on}
use gameserver_daemon.Logs.Streams.Accounts.{held_on, Later-opened}
use gameserver_daemon.Logs.Streams.Ends.{finished-shipped}
use gameserver_daemon.Logs.Streams.Drains.{readable, can_finish}
use gameserver_daemon.Logs.Streams.Blocked.{IsBlocked, Later-left}

abbrev log : List (Stream × String)
log = (stdout, "a") ∷ (stdout, "b") ∷ []

-- The first line is handed over, the second one read.
abbrev copied : Streams
copied = record (opened log) {
  left = [];
  held = some (stdout, "b");
  out = record { waiting = "a" ∷ []; running = true };
}

copied-Later : Later (opened log) copied
copied-Later =
    next
      (next (next here (read _ stdout "a" ((stdout, "b") ∷ []) refl refl refl))
        (write _ stdout "a" refl refl))
      (read _ stdout "b" [] refl refl refl)

Later-opened_example :
    sent_on stdout (all_lines copied.tail ++ copied.lines)
      ++ ((scanner_of stdout copied).waiting
          ++ (held_on stdout copied.held ++ on stdout copied.left))
    ≡ on stdout log
Later-opened_example = Later-opened stdout log copied-Later

-- The context is done, and the scanner sees it before it sends its line.
abbrev abandoned : Streams
abandoned = record copied { out = record { waiting = "a" ∷ []; running = false }; done = true }

abandoned-Later : Later (opened log) abandoned
unfolding size
abandoned-Later = next (next copied-Later (cancel _)) (abandon _ stdout "a" [] refl refl refl refl)

abandoned-IsBlocked : IsBlocked (stdout, "b") [] abandoned
abandoned-IsBlocked = record { held = refl; stopped = refl; left = refl }

abbrev left_alone : Streams
left_alone = record abandoned { tail = turn cancelled abandoned.tail }

Later-left_example :
    (left_alone.held ≡ some (stdout, "b"))
    × (left_alone.left ≡ [])
    × (sent_on stdout (all_lines left_alone.tail ++ left_alone.lines)
          ++ ((scanner_of stdout left_alone).waiting
              ++ (held_on stdout (some (stdout, "b")) ++ on stdout []))
        ≡ on stdout log)
Later-left_example =
    Later-left (stdout, "b") [] stdout log abandoned-Later abandoned-IsBlocked
      (next here (quit _ refl refl))

-- A log of one line, which the tail ships.
abbrev short : List (Stream × String)
short = (stderr, "x") ∷ []

abbrev entry : LogEntry
entry = record { ts = 1; stream = "stderr"; line = "x" }

abbrev stopped_scanners : Streams
stopped_scanners = record (opened short) {
  left = [];
  closed = true;
  out = record { waiting = []; running = false };
  errors = record { waiting = []; running = false };
  tail = turn (received entry) (opened short).tail;
}

unfoldable shipped_state : Streams
shipped_state = record stopped_scanners { tail = turn closed stopped_scanners.tail }

shipped-Later : Later (opened short) shipped_state
unfolding size shipped_state turn collect
shipped-Later =
    next
      (next
        (next
          (next
            (next
              (next
                (next (next here (read _ stderr "x" [] refl refl refl))
                  (write _ stderr "x" refl refl))
                (send _ stderr "x" [] 1 refl refl refl (omega arith)))
              (receive _ entry [] refl refl))
            (end_of_log _ refl refl))
          (exhausted _ stdout refl refl refl))
        (exhausted _ stderr refl refl refl))
      (finish _ refl refl refl refl)

finished-shipped_example :
    sent_on stderr (lines_of shipped_state.tail.shipped) ++ on stderr shipped_state.left
    ≡ on stderr short
unfolding size shipped_state turn collect
finished-shipped_example = finished-shipped stderr short (refl, tt) shipped-Later refl refl

-- The state with two lines on their way.
can_finish_example :
    (t : Streams) × Later copied t
    × (t.tail.finished ≡ true)
    × ((st : Stream)
        → sent_on st (lines_of t.tail.shipped) ++ on st (readable copied.closed copied.left)
          ≡ on st log)
unfolding size
can_finish_example = can_finish log (refl, (refl, tt)) copied-Later refl
