-- ===== src/Metrics/Scraper/Runs.antt =====
-- internal/metrics/scraper.go: what the platform is told over many scrapes.
use gameserver_daemon.Common.{◌+◌, String, true, ◌≡◌, refl, Option, List, [], ◌∷◌, arith}
use gameserver_daemon.Errors.{GoError, Result, ok, err}
use gameserver_daemon.Ports.{ServerRecord, WorkloadStatusUpdate}
use gameserver_daemon.Ports.Interfaces.{RuntimeAdapter}
use gameserver_daemon.Metrics.Scraper.{previous, Scraper, is_active, scrape, Turn, moved_on, run}
use gameserver_daemon.Metrics.Scraper.Laws.{Counter, held, total, Rising, scrape-Accounts}

module _ {R : Type 0} (runtime : RuntimeAdapter R)
    (send : WorkloadStatusUpdate → R → Option GoError × R) (node i : String) where
  -- In a scrape that lists the servers, the workload is active and no counter has fallen; otherwise the
  -- scrape does nothing.
  abbrev pub Steady : Result (List ServerRecord) → Scraper R → Type 0
  Steady (err e) s = Unit {0}
  Steady (ok servers) s = Rising runtime send node servers s × (is_active i servers ≡ true)

  abbrev pub AllSteady : List (Turn runtime send node) → Scraper R → Type 0
  AllSteady [] s = Unit {0}
  AllSteady (t ∷ ts) s =
      Steady t.listed (moved_on runtime send node t s)
      × AllSteady ts (scrape runtime send node t.listed (moved_on runtime send node t s))

  one_accounts :
      (k : Counter) (listed : Result (List ServerRecord)) (s : Scraper R)
      → Steady listed s
      → let s' = scrape runtime send node listed s in
        (total k i s'.reports + total k i s'.dropped) + held k (previous s.prev_io i)
        ≡ (total k i s.reports + total k i s.dropped) + held k (previous s'.prev_io i)
  unfolding scrape
  one_accounts k (err e) s h = refl
  one_accounts k (ok servers) s (rises, active) =
      scrape-Accounts runtime send node k servers s i rises active

  -- Over all the scrapes of a run, for each of the four counters of a workload, network and disk, what
  -- the platform has been told and what the failed reports would have told it are together exactly what
  -- the counter has grown by between the first snapshot and the last: nothing is counted twice, and
  -- nothing is missing but what was in a report that failed. It does not matter when the scrapes come and
  -- what the backend does in between. In each scrape that can list the servers the workload is active,
  -- and no counter has fallen.
  pub run_accounts :
      (k : Counter) (ts : List (Turn runtime send node)) (s : Scraper R)
      → AllSteady ts s
      → let s' = run runtime send node ts s in
        (total k i s'.reports + total k i s'.dropped) + held k (previous s.prev_io i)
        ≡ (total k i s.reports + total k i s.dropped) + held k (previous s'.prev_io i)
  unfolding run
  run_accounts k [] s h = refl
  run_accounts k (t ∷ ts) s (steady, rest) =
      let s' = scrape runtime send node t.listed (moved_on runtime send node t s) in
      omega (
        arith,
        one_accounts k t.listed (moved_on runtime send node t s) steady,
        run_accounts k ts s' rest,
      )
