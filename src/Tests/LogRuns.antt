-- ===== src/Tests/LogRuns.antt =====
-- Runs of the log tails.
use gameserver_daemon.Common.{true, ◌≡◌, refl, [], ◌∷◌, string_dec}
use gameserver_daemon.Errors.{ok}
use gameserver_daemon.Metrics.Scraper.{is_active, is_running}
use gameserver_daemon.Logs.Tailer.{Tailer, reconcile, tail_ended}
use gameserver_daemon.Logs.Tailer.Laws.{has_tail, reconcile-has_tail, late_end_doubles}
use gameserver_daemon.Tests.Data.{server}

-- The second tail of the workload is running, the first one has been cancelled.
abbrev tailer : Tailer
tailer = record {
  running = ("s1", 1) ∷ [];
  next = 2;
  started = (0, "s1") ∷ (1, "s1") ∷ [];
  cancelled = 0 ∷ [];
}

reconcile-has_tail_example :
    has_tail "s1" (reconcile (ok (server ∷ [])) tailer) ≡ is_active "s1" (server ∷ [])
reconcile-has_tail_example = reconcile-has_tail (server ∷ []) tailer "s1"

late_end_doubles_example :
    ((reconcile (ok (server ∷ [])) (tail_ended "s1" tailer)).started
      ≡ (0, "s1") ∷ (1, "s1") ∷ (2, "s1") ∷ [])
    × ((reconcile (ok (server ∷ [])) (tail_ended "s1" tailer)).cancelled ≡ 0 ∷ [])
late_end_doubles_example = late_end_doubles server tailer 1 refl going
  where
    going : is_running server ≡ true
    going = unfold string_dec in refl
