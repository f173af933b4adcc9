-- ===== src/Metrics/Scraper/Laws.antt =====
-- internal/metrics/scraper.go: what the platform is told of the traffic, and what is remembered.
use gameserver_daemon.Common.{
  ℕ, ◌+◌, ◌≤◌, String, Bool, true, false, ◌≡◌, refl, ◌∙◌, sym, ap, subst, Option, none, some, List,
  [], ◌∷◌, ◌++◌, ◌==◌, if◌then◌else◌, arith,
}
use gameserver_daemon.Common.Dict.{Dict, lookup, insert, lookup-insert}
use gameserver_daemon.Errors.{GoError, Result, ok, err}
use gameserver_daemon.Ports.{WorkloadHealth, ServerRecord, WorkloadStatusUpdate}
use gameserver_daemon.Ports.Interfaces.{RuntimeAdapter}
use gameserver_daemon.Metrics.Scraper.{
  IoSnapshot, previous, delta, snapshot, update_of, is_running, scope_of, Scraper, is_active, prune,
  record_status, reported, visit, visit_all, scrape,
}

-- The four counters of a workload: what an update says of one, what a snapshot remembers of it, and
-- what the backend reads.
pub data Counter : Type 0 where
  received sent read written : Counter

abbrev pub told : Counter → WorkloadStatusUpdate → ℕ
told received u = u.network_rx
told sent u = u.network_tx
told read u = u.disk_read
told written u = u.disk_write

abbrev pub held : Counter → IoSnapshot → ℕ
held received s = s.rx
held sent s = s.tx
held read s = s.disk_r
held written s = s.disk_w

abbrev pub now : Counter → WorkloadHealth → ℕ
now received h = h.network_rx
now sent h = h.network_tx
now read h = h.disk_read
now written h = h.disk_write

-- What updates say of a workload's counter in all.
unfoldable pub total : Counter → String → List WorkloadStatusUpdate → ℕ
total k i [] = 0
total k i (u ∷ us) = (if u.workload_id == i then told k u else 0) + total k i us

total-append :
    (k : Counter) (i : String) (xs ys : List WorkloadStatusUpdate)
    → total k i (xs ++ ys) ≡ total k i xs + total k i ys
unfolding total
total-append k i [] ys = omega arith
total-append k i (x ∷ xs) ys = ground (arith, total-append k i xs ys)

told-update_of :
    (k : Counter) (node : String) (r : ServerRecord) (h : WorkloadHealth) (before : IoSnapshot)
    → told k (update_of node r h before) ≡ delta (now k h) (held k before)
unfolding update_of
told-update_of received node r h before = refl
told-update_of sent node r h before = refl
told-update_of read node r h before = refl
told-update_of written node r h before = refl

held-snapshot : (k : Counter) (h : WorkloadHealth) → held k (snapshot h) ≡ now k h
held-snapshot received h = refl
held-snapshot sent h = refl
held-snapshot read h = refl
held-snapshot written h = refl

delta-rising : (a b : ℕ) → b ≤ a → delta a b + b ≡ a
unfolding delta
delta-rising a b h = ground arith

-- A list that gets the update, and one that does not.
one_more :
    (k : Counter) (i node : String) (r : ServerRecord) (h : WorkloadHealth) (before : IoSnapshot)
    (us : List WorkloadStatusUpdate)
    → total k i (us ++ update_of node r h before ∷ [])
      ≡ total k i us + (if r.id == i then delta (now k h) (held k before) else 0)
unfolding total update_of
one_more k i node r h before us =
    total-append k i us (update_of node r h before ∷ [])
    ∙ ap (λ n. total k i us + ((if r.id == i then n else 0) + 0)) (told-update_of k node r h before)
    ∙ omega arith

lookup-prune :
    (active : List ServerRecord) (d : Dict IoSnapshot) (i : String)
    → lookup i (prune active d) ≡ (if is_active i active then lookup i d else none)
unfolding lookup prune
lookup-prune active [] i = ground arith
lookup-prune active ((j, s) ∷ d) i = ground (arith, lookup-prune active d i)

previous-insert :
    (d : Dict IoSnapshot) (i j : String) (s : IoSnapshot)
    → previous (insert i s d) j ≡ (if i == j then s else previous d j)
unfolding previous
previous-insert d i j s = ground (arith, lookup-insert j i s d)

module _ {R : Type 0} (runtime : RuntimeAdapter R)
    (send : WorkloadStatusUpdate → R → Option GoError × R) (node : String) where
  -- No counter that the backend reads has fallen since the last reading.
  abbrev pub HasNotFallen : ServerRecord → Scraper R → Type 0
  HasNotFallen r s =
      (h : WorkloadHealth)
      → (runtime.status (scope_of r) r.id s.backend).0 ≡ ok h
      → (k : Counter) → held k (previous s.prev_io r.id) ≤ now k h

  abbrev pub Rising : List ServerRecord → Scraper R → Type 0
  Rising [] s = Unit
  Rising (r ∷ rs) s = HasNotFallen r s × Rising rs (visit runtime send node r s)

  -- What the platform has been told, what it has not taken, and what is remembered.
  abbrev accounted : Counter → String → Scraper R → ℕ
  accounted k i s = total k i s.reports + total k i s.dropped

  -- What has been reported or dropped and what is remembered grow by the same amount.
  abbrev Accounts : Counter → String → Scraper R → Scraper R → Type 0
  Accounts k i s s' =
      accounted k i s' + held k (previous s.prev_io i)
      ≡ accounted k i s + held k (previous s'.prev_io i)

  remembered :
      (k : Counter) (i : String) (r : ServerRecord) (h : WorkloadHealth) (s : Scraper R)
      → held k (previous (insert r.id (snapshot h) s.prev_io) i)
        ≡ (if r.id == i then now k h else held k (previous s.prev_io i))
  remembered k i r h s =
      ap (held k) (previous-insert s.prev_io r.id i (snapshot h)) ∙ held-if (r.id == i)
    where
      held-if :
          (b : Bool)
          → held k (if b then snapshot h else previous s.prev_io i)
            ≡ (if b then now k h else held k (previous s.prev_io i))
      held-if true = held-snapshot k h
      held-if false = refl

  reported-Accounts :
      (k : Counter) (i : String) (r : ServerRecord) (h : WorkloadHealth) (s : Scraper R)
      (a : Option GoError × R)
      → held k (previous s.prev_io r.id) ≤ now k h
      → Accounts k i s (
          reported runtime send node
            (update_of node r h (previous s.prev_io r.id))
            a
            (record s { prev_io = insert r.id (snapshot h) s.prev_io }))
  reported-Accounts k i r h s (none, b) rises = ground (
    arith,
    remembered k i r h s,
    one_more k i node r h (previous s.prev_io r.id) s.reports,
    delta-rising (now k h) (held k (previous s.prev_io r.id)) rises,
  )
  reported-Accounts k i r h s (some e, b) rises = ground (
    arith,
    remembered k i r h s,
    one_more k i node r h (previous s.prev_io r.id) s.dropped,
    delta-rising (now k h) (held k (previous s.prev_io r.id)) rises,
  )

  record_status-Accounts :
      (k : Counter) (i : String) (r : ServerRecord) (a : Result WorkloadHealth × R) (s : Scraper R)
      → ((h : WorkloadHealth)
          → a.0 ≡ ok h
          → (k : Counter) → held k (previous s.prev_io r.id) ≤ now k h)
      → Accounts k i s (record_status runtime send node r a s)
  record_status-Accounts k i r (err e, b) s rises = refl
  record_status-Accounts k i r (ok h, b) s rises =
      let u = update_of node r h (previous s.prev_io r.id) in
      reported-Accounts k i r h s (send u b) (rises h refl k)

  visit-Accounts :
      (k : Counter) (i : String) (r : ServerRecord) (s : Scraper R)
      → HasNotFallen r s
      → Accounts k i s (visit runtime send node r s)
  unfolding visit
  visit-Accounts k i r s h = go (is_running r)
    where
      status : Result WorkloadHealth × R
      status = runtime.status (scope_of r) r.id s.backend

      go : (b : Bool) → Accounts k i s (if b then record_status runtime send node r status s else s)
      go true = record_status-Accounts k i r status s h
      go false = refl

  visit_all-Accounts :
      (k : Counter) (i : String) (rs : List ServerRecord) (s : Scraper R)
      → Rising rs s
      → Accounts k i s (visit_all runtime send node rs s)
  unfolding visit_all
  visit_all-Accounts k i [] s h = refl
  visit_all-Accounts k i (r ∷ rs) s (h, hs) =
      omega (
        arith,
        visit-Accounts k i r s h,
        visit_all-Accounts k i rs (visit runtime send node r s) hs,
      )

  -- As long as the counters do not fall, what an update of a scrape says of an active workload's counter,
  -- whether the platform has taken it or not, is exactly what the counter has grown by since the
  -- snapshot before.
  pub scrape-Accounts :
      (k : Counter) (servers : List ServerRecord) (s : Scraper R) (i : String)
      → Rising servers s
      → is_active i servers ≡ true
      → Accounts k i s (scrape runtime send node (ok servers) s)
  unfolding scrape
  scrape-Accounts k servers s i rises active =
      subst
        (λ x.
          accounted k i (visit_all runtime send node servers s) + held k (previous s.prev_io i)
          ≡ accounted k i s + held k x)
        (sym kept) (visit_all-Accounts k i servers s rises)
    where
      kept :
          previous (prune servers (visit_all runtime send node servers s).prev_io) i
          ≡ previous (visit_all runtime send node servers s).prev_io i
      kept =
          unfold previous in
          ground (arith, lookup-prune servers (visit_all runtime send node servers s).prev_io i)

  -- After a scrape of the listed servers the scraper remembers a workload only if it is one of them and
  -- is running: snapshots of others do not pile up.
  pub scrape_prunes :
      (servers : List ServerRecord) (s : Scraper R) (i : String)
      → is_active i servers ≡ false
      → lookup i (scrape runtime send node (ok servers) s).prev_io ≡ none
  unfolding scrape
  scrape_prunes servers s i idle =
      lookup-prune servers (visit_all runtime send node servers s).prev_io i ∙ rw idle
