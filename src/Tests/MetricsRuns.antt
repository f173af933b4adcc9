-- ===== src/Tests/MetricsRuns.antt =====
-- Runs of the metrics scraper.
use gameserver_daemon.Common.{
  ℕ, ◌+◌, true, false, ◌≤◌, ◌≡◌, subst, refl, List, [], ◌∷◌, arith, string_dec, Option, none, some,
  eqb, if◌then◌else◌,
}
use gameserver_daemon.Common.Dict.{lookup, insert}
use gameserver_daemon.Errors.{GoError, Result, ok, err, failure}
use gameserver_daemon.Ports.{WorkloadHealth, WorkloadStatusUpdate}
use gameserver_daemon.Metrics.Scraper.{
  Scraper, is_active, previous, scrape, Turn, moved_on, run, visit_all, visit, update_of, delta,
  prune, map_docker_state,
}
use gameserver_daemon.Metrics.Scraper.Laws.{
  Counter, received, sent, read, written, held, now, total, HasNotFallen,
}
use gameserver_daemon.Metrics.Scraper.Runs.{AllSteady, run_accounts}
use gameserver_daemon.Ports.Interfaces.{RuntimeAdapter}
use gameserver_daemon.Tests.Data.{backend, server, health}

-- A backend whose state is the counter that it reads.
abbrev counting : RuntimeAdapter ℕ
counting = record backend { status = λ p w n. (ok (record health { network_rx = n }), n) }

-- The platform does not answer while the counter stands at 300.
abbrev accept : WorkloadStatusUpdate → ℕ → Option GoError × ℕ
accept u n = (if eqb n 300 then some (failure "timeout") else none, n)

abbrev scraper : Scraper ℕ
scraper = record {
  prev_io = ("s1", record { rx = 200; tx = 0; disk_r = 0; disk_w = 0 }) ∷ [];
  backend = 200;
  reports = [];
  dropped = [];
}

-- Two scrapes, and one between them that cannot list the servers.
abbrev ticks : List (Turn counting accept "n")
ticks =
    record { meanwhile = λ n. n + 100; listed = ok (server ∷ []) }
    ∷ record { meanwhile = λ n. n; listed = err (failure "database is locked") }
    ∷ record { meanwhile = λ n. n + 50; listed = ok (server ∷ []) }
    ∷ []

abbrev health_of : Result WorkloadHealth → WorkloadHealth
health_of (ok h) = h
health_of (err e) = health

rises_at :
    (s : Scraper ℕ)
    → ((k : Counter)
        → held k (previous s.prev_io "s1") ≤ now k (record health { network_rx = s.backend }))
    → HasNotFallen counting accept "n" server s
rises_at s h k e c =
    subst (λ (r : Result WorkloadHealth). held c (previous s.prev_io "s1") ≤ now c (health_of r)) e
      (h c)

active : is_active "s1" (server ∷ []) ≡ true
unfolding is_active string_dec
active = refl

idle : is_active "s2" (server ∷ []) ≡ false
unfolding is_active string_dec
idle = refl

told_and_dropped :
    (total received "s1" (run counting accept "n" ticks scraper).reports ≡ 50)
    × (total received "s1" (run counting accept "n" ticks scraper).dropped ≡ 100)
unfolding run scrape total is_active string_dec visit_all visit previous lookup insert update_of
    delta prune map_docker_state
told_and_dropped = (refl, refl)

ticks-AllSteady : AllSteady counting accept "n" "s1" ticks scraper
unfolding scrape is_active string_dec visit_all visit previous lookup insert update_of delta prune
    map_docker_state
ticks-AllSteady = (
  ((rises_at (record scraper { backend = 300 }) at_first, tt), active),
  (tt, (((rises_at again later, tt), active), tt)),
)
  where
    again : Scraper ℕ
    again =
        moved_on counting accept "n" (record { meanwhile = λ n. n + 50; listed = ok (server ∷ []) })
          (scrape counting accept "n" (ok (server ∷ [])) (record scraper { backend = 300 }))

    at_first :
        (k : Counter)
        → held k (previous scraper.prev_io "s1") ≤ now k (record health { network_rx = 300 })
    at_first received = omega arith
    at_first sent = omega arith
    at_first read = omega arith
    at_first written = omega arith

    later :
        (k : Counter)
        → held k (previous again.prev_io "s1")
          ≤ now k (record health { network_rx = again.backend })
    later received = omega arith
    later sent = omega arith
    later read = omega arith
    later written = omega arith

run_accounts_example :
    let s' = run counting accept "n" ticks scraper in
    (total received "s1" s'.reports + total received "s1" s'.dropped)
      + held received (previous scraper.prev_io "s1")
    ≡ (total received "s1" scraper.reports + total received "s1" scraper.dropped)
      + held received (previous s'.prev_io "s1")
run_accounts_example = run_accounts counting accept "n" "s1" received ticks scraper ticks-AllSteady
