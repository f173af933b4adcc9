-- ===== src/Logs/Tailer/Laws.antt =====
-- internal/logs/tailer.go: which workloads have a tail.
use gameserver_daemon.Common.{
  ℕ, String, Bool, true, false, ◌≡◌, refl, sym, ap, ◌∙◌, subst, ◌||◌, ◌&&◌, Option, none, some,
  List, [], ◌∷◌, ◌++◌, ◌==◌, if◌then◌else◌, arith,
}
use mathlib.Core.List.{append-nil}
use gameserver_daemon.Common.Dict.{Dict, lookup, insert, erase, lookup-insert}
use gameserver_daemon.Errors.{ok}
use gameserver_daemon.Ports.{ServerRecord}
use gameserver_daemon.Metrics.Scraper.{is_running, is_active}
use gameserver_daemon.Logs.Tailer.{
  Tailer, start_unless, start_missing, keep_active, idle_tails, reconcile, tail_ended,
}

abbrev pub has_tail : String → Tailer → Bool
has_tail i t = elim (lookup i t.running) [ none ↦ false | some n ↦ true ]

start_unless-has_tail :
    (i j : String) (o : Option ℕ) (t : Tailer)
    → lookup j t.running ≡ o
    → has_tail i (start_unless o j t) ≡ (if j == i then true else has_tail i t)
start_unless-has_tail i j (some n) t e = ground (arith, e)
start_unless-has_tail i j none t e = ground (arith, lookup-insert i j t.next t.running)

visited :
    (i : String) (r : ServerRecord) (t : Tailer) (b : Bool)
    → has_tail i (if b then start_unless (lookup r.id t.running) r.id t else t)
      ≡ ((b && r.id == i) || has_tail i t)
visited i r t true = start_unless-has_tail i r.id (lookup r.id t.running) t refl ∙ ground arith
visited i r t false = refl

or_turned : (a b c : Bool) → (b || (a || c)) ≡ ((a || b) || c)
or_turned true true c = refl
or_turned true false c = refl
or_turned false b c = refl

start_missing-has_tail :
    (i : String) (rs : List ServerRecord) (t : Tailer)
    → has_tail i (start_missing rs t) ≡ (is_active i rs || has_tail i t)
unfolding start_missing is_active
start_missing-has_tail i [] t = refl
start_missing-has_tail i (r ∷ rs) t =
    let t' = if is_running r then start_unless (lookup r.id t.running) r.id t else t in
    start_missing-has_tail i rs t'
    ∙ ap (λ b. is_active i rs || b) (visited i r t (is_running r))
    ∙ or_turned (is_running r && r.id == i) (is_active i rs) (has_tail i t)

lookup-keep_active :
    (servers : List ServerRecord) (d : Dict ℕ) (i : String)
    → lookup i (keep_active servers d) ≡ (if is_active i servers then lookup i d else none)
unfolding lookup keep_active
lookup-keep_active servers [] i = ground arith
lookup-keep_active servers ((j, n) ∷ d) i = ground (arith, lookup-keep_active servers d i)

-- After the set of tails has been brought up to date, a workload has a tail exactly if it is one of the
-- listed servers and is running.
pub reconcile-has_tail :
    (servers : List ServerRecord) (t : Tailer) (i : String)
    → has_tail i (reconcile (ok servers) t) ≡ is_active i servers
unfolding reconcile
reconcile-has_tail servers t i = ground (
  arith,
  lookup-keep_active servers (start_missing servers t).running i,
  start_missing-has_tail i servers t,
)

erased : (r : ServerRecord) (d : Dict ℕ) (n : ℕ) → d ≡ (r.id, n) ∷ [] → erase r.id d ≡ []
erased r d n only = ap (erase r.id) only ∙ (unfold erase in ground arith)

started_anew :
    (r : ServerRecord) (t : Tailer)
    → is_running r ≡ true
    → ((reconcile (ok (r ∷ [])) (record t { running = [] })).started
        ≡ t.started ++ (t.next, r.id) ∷ [])
      × ((reconcile (ok (r ∷ [])) (record t { running = [] })).cancelled ≡ t.cancelled)
unfolding reconcile start_missing idle_tails is_active lookup insert
started_anew r t going = (ground arith, ground (arith, append-nil t.cancelled))

-- A tail that ends late takes the entry of its successor with it: where the only tail registered is a later
-- one of the same workload, and the workload is still running, the next update starts one more tail of it
-- and cancels none, so that two read the same output.
pub late_end_doubles :
    (r : ServerRecord) (t : Tailer) (n : ℕ)
    → t.running ≡ (r.id, n) ∷ []
    → is_running r ≡ true
    → ((reconcile (ok (r ∷ [])) (tail_ended r.id t)).started ≡ t.started ++ (t.next, r.id) ∷ [])
      × ((reconcile (ok (r ∷ [])) (tail_ended r.id t)).cancelled ≡ t.cancelled)
unfolding tail_ended
late_end_doubles r t n only going =
    subst
      (λ d.
        ((reconcile (ok (r ∷ [])) (record t { running = d })).started
          ≡ t.started ++ (t.next, r.id) ∷ [])
        × ((reconcile (ok (r ∷ [])) (record t { running = d })).cancelled ≡ t.cancelled))
      (sym (erased r t.running n only)) (started_anew r t going)
