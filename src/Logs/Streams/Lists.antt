-- ===== src/Logs/Streams/Lists.antt =====
-- internal/logs/tailer.go: the lines of one stream.
use gameserver_daemon.Common.{
  String, Bool, true, false, ◌≡◌, refl, sym, ap, ◌∙◌, List, [], ◌∷◌, ◌++◌, ◌==◌, string_dec,
}
use mathlib.Core.List.{append_assoc}
use gameserver_daemon.Logs.Batches.{LogEntry}
use gameserver_daemon.Logs.Streams.{Stream, stdout, stderr, name_of}

abbrev pub same_stream : Stream → Stream → Bool
same_stream stdout stdout = true
same_stream stderr stderr = true
same_stream stdout stderr = false
same_stream stderr stdout = false

-- `xs`, if the streams are the same.
abbrev pub only_if : Bool → String → List String
only_if true l = l ∷ []
only_if false l = []

-- The lines of a log, and of what has been sent, that are of one stream.
unfoldable pub on : Stream → List (Stream × String) → List String
on st [] = []
on st ((k, l) ∷ log) = only_if (same_stream k st) l ++ on st log

unfoldable pub sent_on : Stream → List LogEntry → List String
sent_on st [] = []
sent_on st (e ∷ es) = only_if (e.stream == name_of st) e.line ++ sent_on st es

pub named : (k st : Stream) → (name_of k == name_of st) ≡ same_stream k st
unfolding string_dec
named stdout stdout = refl
named stdout stderr = refl
named stderr stdout = refl
named stderr stderr = refl

pub on-append :
    (st : Stream) (xs ys : List (Stream × String)) → on st (xs ++ ys) ≡ on st xs ++ on st ys
unfolding on
on-append st [] ys = refl
on-append st ((k, l) ∷ xs) ys =
    ap (λ zs. only_if (same_stream k st) l ++ zs) (on-append st xs ys)
    ∙ sym (append_assoc (only_if (same_stream k st) l) (on st xs) (on st ys))

pub sent_on-append :
    (st : Stream) (xs ys : List LogEntry) → sent_on st (xs ++ ys) ≡ sent_on st xs ++ sent_on st ys
unfolding sent_on
sent_on-append st [] ys = refl
sent_on-append st (e ∷ xs) ys =
    ap (λ zs. only_if (e.stream == name_of st) e.line ++ zs) (sent_on-append st xs ys)
    ∙ sym (append_assoc (only_if (e.stream == name_of st) e.line) (sent_on st xs) (sent_on st ys))
