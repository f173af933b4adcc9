-- ===== src/Logs/Tailer.antt =====
-- internal/logs/tailer.go: the set of running tails. A tail has a number, which stands for its context's
-- cancel function.
pub mod Laws
use gameserver_daemon.Common.{
  ℕ, ◌+◌, String, Bool, true, false, Option, none, some, List, [], ◌∷◌, ◌++◌, ◌==◌, if◌then◌else◌,
}
use gameserver_daemon.Common.Dict.{Dict, lookup, insert, erase}
use gameserver_daemon.Errors.{GoError, Result, ok, err}
use gameserver_daemon.Ports.{ServerRecord}
use gameserver_daemon.Metrics.Scraper.{is_running, is_active}

-- `started` are the tails that have been started, with the workloads that they read, and `cancelled`
-- those whose contexts have been cancelled.
pub record Tailer : Type 0 where
  pub running : Dict ℕ
  pub next : ℕ
  pub started : List (ℕ × String)
  pub cancelled : List ℕ

abbrev start_tail : String → Tailer → Tailer
start_tail i t = record {
  running = insert i t.next t.running;
  next = t.next + 1;
  started = t.started ++ (t.next, i) ∷ [];
  cancelled = t.cancelled;
}

-- `if !already`
abbrev pub start_unless : Option ℕ → String → Tailer → Tailer
start_unless (some n) i t = t
start_unless none i t = start_tail i t

-- The loop over the servers.
unfoldable pub start_missing : List ServerRecord → Tailer → Tailer
start_missing [] t = t
start_missing (r ∷ rs) t =
    start_missing rs (if is_running r then start_unless (lookup r.id t.running) r.id t else t)

-- The loop over the running tails: which go on, and which are cancelled.
unfoldable pub keep_active : List ServerRecord → Dict ℕ → Dict ℕ
keep_active servers [] = []
keep_active servers ((i, n) ∷ d) =
    let rest = keep_active servers d in if is_active i servers then (i, n) ∷ rest else rest

unfoldable pub idle_tails : List ServerRecord → Dict ℕ → List ℕ
idle_tails servers [] = []
idle_tails servers ((i, n) ∷ d) =
    let rest = idle_tails servers d in if is_active i servers then rest else n ∷ rest

-- `reconcile`, on the answer of `ListAll`. It is one step, where the source takes its lock around each
-- of its changes of the map.
unfoldable pub reconcile : Result (List ServerRecord) → Tailer → Tailer
unfolding start_missing keep_active idle_tails
reconcile (err e) t = t
reconcile (ok servers) t =
    let t' = start_missing servers t in
    record t' {
      running = keep_active servers t'.running;
      cancelled = t'.cancelled ++ idle_tails servers t'.running;
    }

-- The deferred function of `tail`, when a tail of the workload ends.
unfoldable pub tail_ended : String → Tailer → Tailer
tail_ended i t = record t { running = erase i t.running }

unfoldable pub numbers : Dict ℕ → List ℕ
numbers [] = []
numbers ((i, n) ∷ d) = n ∷ numbers d

-- `stopAll`
unfoldable pub stop_all : Tailer → Tailer
unfolding numbers
stop_all t = record t { running = []; cancelled = t.cancelled ++ numbers t.running }

-- What the loop of `Run` meets: a tick, with the answer of `ListAll`; the end of a tail of a workload, which
-- comes at any time; the end of the context, at which the loop returns.
pub data Turn : Type 0 where
  due : Result (List ServerRecord) → Turn
  ended : String → Turn
  done : Turn

unfoldable pub loop : List Turn → Tailer → Tailer
unfolding reconcile tail_ended stop_all
loop [] t = t
loop (due listed ∷ turns) t = loop turns (reconcile listed t)
loop (ended i ∷ turns) t = loop turns (tail_ended i t)
loop (done ∷ turns) t = stop_all t

-- `Run`, which reconciles at once.
unfoldable pub run : Result (List ServerRecord) → List Turn → Tailer → Tailer
unfolding loop
run listed turns t = loop turns (reconcile listed t)
