-- ===== src/Logs/Streams/Accounts.antt =====
-- internal/logs/tailer.go: on every stream, each line of the log is in one place and in its order.
use mathlib.Core.Path.{ap₂}
use mathlib.Core.List.{append_assoc, append-nil}
use gameserver_daemon.Common.{
  ℕ, String, Bool, true, false, ◌≡◌, refl, sym, ap, ◌∙◌, Option, none, some, List, [], ◌∷◌, ◌++◌,
  ◌==◌,
}
use gameserver_daemon.Logs.Batches.{LogEntry, received, tick, closed, cancelled, turn}
use gameserver_daemon.Logs.Batches.Laws.{all_lines, lines_of, flush-all_lines, collect-all_lines}
use gameserver_daemon.Logs.Streams.{
  Stream, stdout, stderr, name_of, Scanner, Streams, scanner_of, with_scanner, opened, Step, read,
  write, end_of_log, lost_log, send, too_long, exhausted, abandon, receive, time, finish, cancel,
  quit, Later, here, next,
}
use gameserver_daemon.Logs.Streams.Lists.{same_stream, only_if, on, sent_on, named, sent_on-append}

abbrev pub held_on : Stream → Option (Stream × String) → List String
held_on st none = []
held_on st (some (k, l)) = only_if (same_stream k st) l

-- What the loop has or has passed on, with what is in the channel.
abbrev pub arrived : Stream → Streams → List String
arrived st s = sent_on st (all_lines s.tail ++ s.lines)

-- All the lines of a stream, from the ones shipped first to the ones not yet read.
abbrev pub whole : Stream → Streams → List String
whole st s = arrived st s ++ ((scanner_of st s).waiting ++ (held_on st s.held ++ on st s.left))

sent_one :
    (st k : Stream) (xs : List LogEntry) (now : ℕ) (l : String)
    → sent_on st (xs ++ record { ts = now; stream = name_of k; line = l } ∷ [])
      ≡ sent_on st xs ++ only_if (same_stream k st) l
unfolding sent_on
sent_one st k xs now l =
    sent_on-append st xs (record { ts = now; stream = name_of k; line = l } ∷ [])
    ∙ ap (λ ys. sent_on st xs ++ ys)
        (append-nil (only_if (name_of k == name_of st) l) ∙ ap (λ b. only_if b l) (named k st))

-- The whole by its parts.
by_parts :
    (st : Stream) (s t : Streams)
    → arrived st t ≡ arrived st s
    → (scanner_of st t).waiting ≡ (scanner_of st s).waiting
    → held_on st t.held ++ on st t.left ≡ held_on st s.held ++ on st s.left
    → whole st t ≡ whole st s
by_parts st s t a w r = ap₂ (λ x y. x ++ y) a (ap₂ (λ x y. x ++ y) w r)

same_waiting :
    (st : Stream) (s t : Streams)
    → t.out ≡ s.out
    → t.errors ≡ s.errors
    → (scanner_of st t).waiting ≡ (scanner_of st s).waiting
same_waiting stdout s t e f = ap (λ (c : Scanner). c.waiting) e
same_waiting stderr s t e f = ap (λ (c : Scanner). c.waiting) f

restored_waiting :
    (st k : Stream) (s : Streams) (w : List String) (r : Bool)
    → (scanner_of k s).waiting ≡ w
    → (scanner_of st (with_scanner k (record { waiting = w; running = r }) s)).waiting
      ≡ (scanner_of st s).waiting
restored_waiting stdout stdout s w r e = sym e
restored_waiting stdout stderr s w r e = refl
restored_waiting stderr stdout s w r e = refl
restored_waiting stderr stderr s w r e = sym e

-- Nothing but a scanner's own field depends on it.
restored-whole :
    (st k : Stream) (s : Streams) (w : List String) (r : Bool)
    → (scanner_of k s).waiting ≡ w
    → whole st (with_scanner k (record { waiting = w; running = r }) s) ≡ whole st s
restored-whole st stdout s w r e =
    by_parts st s (record s { out = record { waiting = w; running = r } }) refl
      (restored_waiting st stdout s w r e) refl
restored-whole st stderr s w r e =
    by_parts st s (record s { errors = record { waiting = w; running = r } }) refl
      (restored_waiting st stderr s w r e) refl

-- A line that moves from the front of a part to the end of the part before it.
moved : (a x b c : List String) → (a ++ x) ++ (b ++ c) ≡ a ++ ((x ++ b) ++ c)
moved a x b c = append_assoc a x (b ++ c) ∙ ap (λ zs. a ++ zs) (sym (append_assoc x b c))

send-whole :
    (st k : Stream) (s : Streams) (l : String) (rest : List String) (now : ℕ)
    → (scanner_of k s).waiting ≡ l ∷ rest
    → whole st (
        with_scanner k
          (record { waiting = rest; running = true })
          (record s { lines = s.lines ++ record { ts = now; stream = name_of k; line = l } ∷ [] }))
      ≡ whole st s
send-whole st k s l rest now h = go st k h
  where
    others : Stream → List String
    others i = held_on i s.held ++ on i s.left

    one : Stream → Stream → List LogEntry
    one i j =
        all_lines s.tail ++ (s.lines ++ record { ts = now; stream = name_of j; line = l } ∷ [])

    grown : (i j : Stream) → sent_on i (one i j) ≡ arrived i s ++ only_if (same_stream j i) l
    grown i j =
        ap (sent_on i) (sym (append_assoc (all_lines s.tail) s.lines _))
        ∙ sent_one i j (all_lines s.tail ++ s.lines) now l

    mine :
        (i j : Stream) (w : List String)
        → w ≡ l ∷ rest
        → same_stream j i ≡ true
        → sent_on i (one i j) ++ (rest ++ others i) ≡ arrived i s ++ (w ++ others i)
    mine i j w e d =
        ap (λ zs. zs ++ (rest ++ others i)) (grown i j ∙ ap (λ b. arrived i s ++ only_if b l) d)
        ∙ moved (arrived i s) (l ∷ []) rest (others i)
        ∙ ap (λ zs. arrived i s ++ (zs ++ others i)) (sym e)

    other :
        (i j : Stream) (w : List String)
        → same_stream j i ≡ false
        → sent_on i (one i j) ++ (w ++ others i) ≡ arrived i s ++ (w ++ others i)
    other i j w d =
        ap (λ zs. zs ++ (w ++ others i))
          (grown i j ∙ ap (λ b. arrived i s ++ only_if b l) d ∙ append-nil (arrived i s))

    go :
        (i j : Stream)
        → (scanner_of j s).waiting ≡ l ∷ rest
        → whole i (
            with_scanner j
              (record { waiting = rest; running = true })
              (record s {
                lines = s.lines ++ record { ts = now; stream = name_of j; line = l } ∷ [];
              }))
          ≡ whole i s
    go stdout stdout e = mine stdout stdout s.out.waiting e refl
    go stdout stderr e = other stdout stderr s.out.waiting refl
    go stderr stdout e = other stderr stdout s.errors.waiting refl
    go stderr stderr e = mine stderr stderr s.errors.waiting e refl

write-whole :
    (st k : Stream) (s : Streams) (l : String)
    → s.held ≡ some (k, l)
    → whole st (
        with_scanner k
          (record { waiting = (scanner_of k s).waiting ++ l ∷ []; running = true })
          (record s { held = none }))
      ≡ whole st s
write-whole stdout stdout s l h =
    ap (λ zs. arrived stdout s ++ zs)
      (append_assoc s.out.waiting (l ∷ []) (on stdout s.left)
        ∙ ap (λ o. s.out.waiting ++ (held_on stdout o ++ on stdout s.left)) (sym h))
write-whole stdout stderr s l h =
    ap (λ o. arrived stdout s ++ (s.out.waiting ++ (held_on stdout o ++ on stdout s.left))) (sym h)
write-whole stderr stdout s l h =
    ap (λ o. arrived stderr s ++ (s.errors.waiting ++ (held_on stderr o ++ on stderr s.left)))
      (sym h)
write-whole stderr stderr s l h =
    ap (λ zs. arrived stderr s ++ zs)
      (append_assoc s.errors.waiting (l ∷ []) (on stderr s.left)
        ∙ ap (λ o. s.errors.waiting ++ (held_on stderr o ++ on stderr s.left)) (sym h))

turned-whole :
    (st : Stream) (s t : Streams)
    → all_lines t.tail ++ t.lines ≡ all_lines s.tail ++ s.lines
    → t.out ≡ s.out
    → t.errors ≡ s.errors
    → held_on st t.held ++ on st t.left ≡ held_on st s.held ++ on st s.left
    → whole st t ≡ whole st s
turned-whole st s t a o e r = by_parts st s t (ap (sent_on st) a) (same_waiting st s t o e) r

Step-whole : (st : Stream) {s t : Streams} → Step s t → whole st t ≡ whole st s
unfolding on turn
Step-whole st (read s k l rest reading free more) =
    turned-whole st s (record s { left = rest; held = some (k, l) }) refl refl refl
      (rw (free, more) refl)
Step-whole st (write s k l mine reads) = write-whole st k s l mine
Step-whole st (end_of_log s free over) =
    turned-whole st s (record s { closed = true }) refl refl refl refl
Step-whole st (lost_log s free) = turned-whole st s (record s { closed = true }) refl refl refl refl
Step-whole st (send s k l rest now runs waits fit room) = send-whole st k s l rest now waits
Step-whole st (too_long s k l rest runs waits long) = restored-whole st k s (l ∷ rest) false waits
Step-whole st (exhausted s k runs waits over) = restored-whole st k s [] false waits
Step-whole st (abandon s k l rest runs waits fit over) =
    restored-whole st k s (l ∷ rest) false waits
Step-whole st (receive s e rest going more) =
    turned-whole st s (record s { lines = rest; tail = turn (received e) s.tail })
      (ap (λ ls. ls ++ rest) (collect-all_lines e s.tail)
        ∙ append_assoc (all_lines s.tail) (e ∷ []) rest
        ∙ ap (λ ls. all_lines s.tail ++ ls) (sym more))
      refl refl refl
Step-whole st (time s going) =
    turned-whole st s (record s { tail = turn tick s.tail })
      (ap (λ ls. ls ++ s.lines) (flush-all_lines s.tail)) refl refl refl
Step-whole st (finish s going none_left out_over err_over) =
    turned-whole st s (record s { tail = turn closed s.tail })
      (ap (λ ls. ls ++ s.lines) (flush-all_lines s.tail)) refl refl refl
Step-whole st (cancel s) = turned-whole st s (record s { done = true }) refl refl refl refl
Step-whole st (quit s going over) =
    turned-whole st s (record s { tail = turn cancelled s.tail })
      (ap (λ ls. ls ++ s.lines) (flush-all_lines s.tail)) refl refl refl

pub Later-whole : (st : Stream) {s t : Streams} → Later s t → whole st t ≡ whole st s
Later-whole st here = refl
Later-whole st (next before step) = Step-whole st step ∙ Later-whole st before

-- Each line of a container's log is in one place, and in its order, whatever the goroutines of a tail do
-- and when: on each of the two streams, the lines that have been shipped, those in the batch, those in
-- the channel, those that wait in the scanner, the one that is being copied and those not yet read
-- are, one after the other, the lines of the stream in the log.
pub Later-opened :
    (st : Stream) (log : List (Stream × String)) {t : Streams}
    → Later (opened log) t
    → sent_on st (all_lines t.tail ++ t.lines)
        ++ ((scanner_of st t).waiting ++ (held_on st t.held ++ on st t.left))
      ≡ on st log
unfolding sent_on lines_of
Later-opened stdout log l = Later-whole stdout l
Later-opened stderr log l = Later-whole stderr l
