-- ===== src/Logs/Streams/Blocked.antt =====
-- internal/logs/tailer.go: a scanner that stops blocks the demultiplexer.
use gameserver_daemon.Common.{String, true, false, ◌≡◌, refl, sym, ap, subst, ◌∙◌, some, List, ◌++◌}
use gameserver_daemon.Logs.Batches.Laws.{all_lines}
use gameserver_daemon.Logs.Streams.Lists.{on, sent_on}
use gameserver_daemon.Logs.Streams.Accounts.{held_on, Later-opened}
use gameserver_daemon.Logs.Streams.{
  Stream, stdout, stderr, Scanner, Streams, scanner_of, with_scanner, opened, Step, read, write,
  end_of_log, lost_log, send, too_long, exhausted, abandon, receive, time, finish, cancel, quit,
  Later, here, next,
}

-- The demultiplexer has a line for a scanner that has stopped.
pub record IsBlocked (x : Stream × String) (rest : List (Stream × String)) (s : Streams)
    : Type 0 where
  pub held : s.held ≡ some x
  pub stopped : (scanner_of x.0 s).running ≡ false
  pub left : s.left ≡ rest

pub Later-trans : {s t u : Streams} → Later s t → Later t u → Later s u
Later-trans r here = r
Later-trans r (next before step) = next (Later-trans r before) step

-- A stopped scanner is not the one that a step of a running scanner changes.
sending_stopped :
    (k st : Stream) (c : Scanner) (s t : Streams)
    → (scanner_of st s).running ≡ false
    → (scanner_of k s).running ≡ true
    → t.out ≡ s.out
    → t.errors ≡ s.errors
    → (scanner_of st (with_scanner k c t)).running ≡ false
sending_stopped stdout stdout c s t h e f g = cc
sending_stopped stdout stderr c s t h e f g = ap (λ (c : Scanner). c.running) g ∙ h
sending_stopped stderr stdout c s t h e f g = ap (λ (c : Scanner). c.running) f ∙ h
sending_stopped stderr stderr c s t h e f g = cc

same_stopped :
    (st : Stream) (s t : Streams)
    → (scanner_of st s).running ≡ false
    → t.out ≡ s.out
    → t.errors ≡ s.errors
    → (scanner_of st t).running ≡ false
same_stopped stdout s t h f g = ap (λ (c : Scanner). c.running) f ∙ h
same_stopped stderr s t h f g = ap (λ (c : Scanner). c.running) g ∙ h

module _ (x : Stream × String) (rest : List (Stream × String)) where
  kept :
      (s t : Streams)
      → IsBlocked x rest s
      → t.held ≡ s.held
      → t.left ≡ s.left
      → (scanner_of x.0 t).running ≡ false
      → IsBlocked x rest t
  kept s t h a b c = record { held = a ∙ h.held; stopped = c; left = b ∙ h.left }

  rescanned :
      (k : Stream) (c : Scanner) (s t : Streams)
      → IsBlocked x rest s
      → (scanner_of k s).running ≡ true
      → t.out ≡ s.out
      → t.errors ≡ s.errors
      → t.held ≡ s.held
      → t.left ≡ s.left
      → IsBlocked x rest (with_scanner k c t)
  rescanned stdout c s t h runs f g a b =
      kept s (record t { out = c }) h a b (sending_stopped stdout x.0 c s t h.stopped runs f g)
  rescanned stderr c s t h runs f g a b =
      kept s (record t { errors = c }) h a b (sending_stopped stderr x.0 c s t h.stopped runs f g)

  not_writing :
      (s : Streams) (k : Stream) (l : String)
      → IsBlocked x rest s
      → s.held ≡ some (k, l)
      → (scanner_of k s).running ≡ false
  not_writing s k l h mine =
      subst (λ (y : Stream × String). (scanner_of y.0 s).running ≡ false) same h.stopped
    where
      same : x ≡ (k, l)
      same = cc (h.held, mine)

  Step-IsBlocked : {s t : Streams} → Step s t → IsBlocked x rest s → IsBlocked x rest t
  Step-IsBlocked (read s k l more reading free one) h = absurd (cc (free, h.held))
  Step-IsBlocked (write s k l mine reads) h = absurd (cc (not_writing s k l h mine, reads))
  Step-IsBlocked (end_of_log s free over) h = absurd (cc (free, h.held))
  Step-IsBlocked (lost_log s free) h = absurd (cc (free, h.held))
  Step-IsBlocked (send s k l more now runs waits fit room) h =
      rescanned k _ s _ h runs refl refl refl refl
  Step-IsBlocked (too_long s k l more runs waits long) h =
      rescanned k _ s _ h runs refl refl refl refl
  Step-IsBlocked (exhausted s k runs waits over) h = rescanned k _ s _ h runs refl refl refl refl
  Step-IsBlocked (abandon s k l more runs waits fit over) h =
      rescanned k _ s _ h runs refl refl refl refl
  Step-IsBlocked (receive s e more going one) h =
      kept s _ h refl refl (same_stopped x.0 s _ h.stopped refl refl)
  Step-IsBlocked (time s going) h = kept s _ h refl refl (same_stopped x.0 s _ h.stopped refl refl)
  Step-IsBlocked (finish s going empty out_over errors_over) h =
      kept s _ h refl refl (same_stopped x.0 s _ h.stopped refl refl)
  Step-IsBlocked (cancel s) h = kept s _ h refl refl (same_stopped x.0 s _ h.stopped refl refl)
  Step-IsBlocked (quit s going over) h =
      kept s _ h refl refl (same_stopped x.0 s _ h.stopped refl refl)

  pub Later-IsBlocked : {s t : Streams} → IsBlocked x rest s → Later s t → IsBlocked x rest t
  Later-IsBlocked h here = h
  Later-IsBlocked h (next before step) = Step-IsBlocked step (Later-IsBlocked h before)

  -- A scanner that stops too early ends the reading of the log for good. If at some time the
  -- demultiplexer has a line for a scanner that has stopped, at a line that is too long or because the
  -- context is done, then at every later time, whatever happens, it still has that line and nothing
  -- more has been read: on each of the two streams, what has been shipped, collected and scanned,
  -- followed by that line and all behind it, are the lines of the log.
  pub Later-left :
      (st : Stream) (log : List (Stream × String)) {s t : Streams}
      → Later (opened log) s
      → IsBlocked x rest s
      → Later s t
      → (t.held ≡ some x)
        × (t.left ≡ rest)
        × (sent_on st (all_lines t.tail ++ t.lines)
              ++ ((scanner_of st t).waiting ++ (held_on st (some x) ++ on st rest))
            ≡ on st log)
  Later-left st log {s} {t} before h after =
      let k = Later-IsBlocked h after in
      (
        k.held,
        k.left,
        ap
              (λ o.
                sent_on st (all_lines t.tail ++ t.lines)
                ++ ((scanner_of st t).waiting ++ (held_on st o ++ on st rest)))
              (sym k.held)
            ∙ ap
                (λ r.
                  sent_on st (all_lines t.tail ++ t.lines)
                  ++ ((scanner_of st t).waiting ++ (held_on st t.held ++ on st r)))
                (sym k.left)
            ∙ Later-opened st log (Later-trans before after),
      )
