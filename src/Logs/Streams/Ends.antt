-- ===== src/Logs/Streams/Ends.antt =====
-- internal/logs/tailer.go: what a tail has shipped when its log has ended.
use mathlib.Core.List.{append-nil}
use gameserver_daemon.Common.{String, true, false, ◌≡◌, sym, ap, ◌∙◌, none, List, [], ◌++◌}
use gameserver_daemon.Logs.Batches.Laws.{all_lines, lines_of}
use gameserver_daemon.Logs.Streams.{Stream, stdout, stderr, Streams, opened, Later}
use gameserver_daemon.Logs.Streams.Lists.{on, sent_on}
use gameserver_daemon.Logs.Streams.Accounts.{held_on, Later-opened}
use gameserver_daemon.Logs.Streams.Tidy.{LogFits, opened-IsTidy, Later-IsTidy}

-- The account of a stream where nothing is under way.
settled_account :
    (st : Stream) (t : Streams) (w log : List String)
    → t.lines ≡ []
    → t.tail.batch ≡ []
    → w ≡ []
    → t.held ≡ none
    → sent_on st (all_lines t.tail ++ t.lines) ++ (w ++ (held_on st t.held ++ on st t.left)) ≡ log
    → sent_on st (lines_of t.tail.shipped) ++ on st t.left ≡ log
settled_account st t w log a b c d account =
    ap (λ xs. sent_on st xs ++ on st t.left)
      (sym (append-nil (lines_of t.tail.shipped))
        ∙ ap (λ bs. lines_of t.tail.shipped ++ bs) (sym b)
        ∙ sym (append-nil (all_lines t.tail))
        ∙ ap (λ ls. all_lines t.tail ++ ls) (sym a))
    ∙ ap (λ o. sent_on st (all_lines t.tail ++ t.lines) ++ (held_on st o ++ on st t.left)) (sym d)
    ∙ ap
        (λ v.
          sent_on st (all_lines t.tail ++ t.lines) ++ (v ++ (held_on st t.held ++ on st t.left)))
        (sym c)
    ∙ account

-- A tail that has come to the end of its log has shipped all of it. If no line is longer than the scanner
-- takes, and the loop has returned without the context being done, then on each of the two streams the
-- batches that have been shipped hold, in their order, the lines of the log, but for the ones that
-- could not be read from it.
pub finished-shipped :
    (st : Stream) (log : List (Stream × String)) {t : Streams}
    → LogFits log
    → Later (opened log) t
    → t.tail.finished ≡ true
    → t.done ≡ false
    → sent_on st (lines_of t.tail.shipped) ++ on st t.left ≡ on st log
finished-shipped stdout log {t} fit l over live =
    let h = Later-IsTidy (opened-IsTidy log fit) l in
    let (empty, flushed, stopped, _) = h.over over live in
    let (scanned, shut) = h.out stopped live in
    settled_account stdout t t.out.waiting (on stdout log) empty flushed scanned (h.free shut)
      (Later-opened stdout log l)
finished-shipped stderr log {t} fit l over live =
    let h = Later-IsTidy (opened-IsTidy log fit) l in
    let (empty, flushed, _, stopped) = h.over over live in
    let (scanned, shut) = h.errors stopped live in
    settled_account stderr t t.errors.waiting (on stderr log) empty flushed scanned (h.free shut)
      (Later-opened stderr log l)
