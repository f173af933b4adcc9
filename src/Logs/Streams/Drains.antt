-- ===== src/Logs/Streams/Drains.antt =====
-- internal/logs/tailer.go: the goroutines of a tail do not hold each other up.
use gameserver_daemon.Common.{
  String, Bool, true, false, ◌≡◌, refl, sym, ap, subst, Option, none, some, List, [], ◌++◌,
  Bool-cases, inl, inr,
}
use gameserver_daemon.Logs.Batches.{LogEntry, Tail, closed, turn}
use gameserver_daemon.Logs.Batches.Laws.{lines_of}
use gameserver_daemon.Logs.Streams.{
  Stream, stdout, stderr, Scanner, Streams, opened, end_of_log, exhausted, finish, Later, here,
  next,
}
use gameserver_daemon.Logs.Streams.Lists.{on, sent_on}
use gameserver_daemon.Logs.Streams.Tidy.{
  AllFit, LogFits, HeldFits, Settled, IsTidy, opened-IsTidy, Later-IsTidy,
}
use gameserver_daemon.Logs.Streams.Ends.{finished-shipped}
use gameserver_daemon.Logs.Streams.Blocked.{Later-trans}
use gameserver_daemon.Logs.Streams.Forward.{reading, state, receives, scans, copies_held, copies}

abbrev stopped : Scanner
stopped = record { waiting = []; running = false }

abbrev idle : Bool → Scanner
idle r = record { waiting = []; running = r }

out_stops :
    (left : List (Stream × String)) (r : Bool) (other : Scanner) (t : Tail)
    → Later
        (state left none true stdout (idle r) other [] t)
        (state left none true stdout stopped other [] t)
out_stops left false other t = here
out_stops left true other t = next here (exhausted _ stdout refl refl refl)

errors_stop :
    (left : List (Stream × String)) (r : Bool) (mine : Scanner) (t : Tail)
    → Later
        (state left none true stdout mine (idle r) [] t)
        (state left none true stdout mine stopped [] t)
errors_stop left false mine t = here
errors_stop left true mine t = next here (exhausted _ stderr refl refl refl)

-- A tail with nothing under way, whose pipes are closed, returns.
returns :
    (left : List (Stream × String)) (r q : Bool) (t : Tail)
    → t.finished ≡ false
    → (u : Tail) × (u.finished ≡ true)
      × Later
          (state left none true stdout (idle r) (idle q) [] t)
          (state left none true stdout stopped stopped [] u)
unfolding turn
returns left r q t going = (
  turn closed t,
  refl,
  next (Later-trans (out_stops left r (idle q) t) (errors_stop left q stopped t))
      (finish _ going refl refl refl),
)

-- A scanner that has stopped has nothing to pass on.
rests :
    (left : List (Stream × String)) (held : Option (Stream × String)) (shut : Bool) (st : Stream)
    (w : List String) (r : Bool) (other : Scanner) (t : Tail)
    → Settled false shut (record { waiting = w; running = r })
    → AllFit w
    → t.finished ≡ false
    → (u : Tail) × (u.finished ≡ false)
      × Later
          (state left held shut st (record { waiting = w; running = r }) other [] t)
          (state left held shut st (idle r) other [] u)
rests left held shut st w true other t settled fit going =
    scans left held shut st w other t fit going
rests left held shut st w false other t settled fit going = (
  t,
  going,
  subst
      (λ v.
        Later (state left held shut st (record { waiting = v; running = false }) other [] t)
          (state left held shut st stopped other [] t))
      (sym (settled refl refl).0) here,
)

-- The lines that are still read.
abbrev pub readable : Bool → List (Stream × String) → List (Stream × String)
readable true left = left
readable false left = []

abbrev Returns : Bool → List (Stream × String) → Streams → Type 0
Returns shut left s =
    (u : Tail) × (u.finished ≡ true)
    × Later s (state (readable shut left) none true stdout stopped stopped [] u)

-- Both scanners and the channel come to rest.
rest_then :
    (left : List (Stream × String)) (held : Option (Stream × String)) (shut : Bool)
    (w v : List String) (r q : Bool) (ls : List LogEntry) (t : Tail)
    → Settled false shut (record { waiting = w; running = r })
    → Settled false shut (record { waiting = v; running = q })
    → AllFit w
    → AllFit v
    → t.finished ≡ false
    → ((u : Tail)
        → u.finished ≡ false
        → Returns shut left (state left held shut stdout (idle r) (idle q) [] u))
    → Returns shut left (
        state left held shut stdout
          (record { waiting = w; running = r })
          (record { waiting = v; running = q })
          ls
          t)
rest_then left held shut w v r q ls t a b f g going k =
    let out : Scanner = record { waiting = w; running = r } in
    let errors : Scanner = record { waiting = v; running = q } in
    let (t1, go1, l1) = receives left held shut stdout out errors ls t going in
    let (t2, go2, l2) = rests left held shut stdout w r errors t1 a f go1 in
    let (t3, go3, l3) = rests left held shut stderr v q (idle r) t2 b g go2 in
    let (u, over, l4) = k t3 go3 in (u, over, Later-trans (Later-trans (Later-trans l1 l2) l3) l4)

reads_left :
    (left : List (Stream × String)) (t : Tail)
    → LogFits left
    → t.finished ≡ false
    → Returns false left (state left none false stdout (reading []) (reading []) [] t)
reads_left left t fit going =
    let (t1, go1, l1) = copies left t fit going in
    let (u, over, l2) = returns [] true true t1 go1 in
    (u, over, Later-trans (next l1 (end_of_log _ refl refl)) l2)

-- What is held and what is left are passed on, and the pipes are closed.
reads_on :
    (left : List (Stream × String)) (held : Option (Stream × String)) (t : Tail)
    → LogFits left
    → HeldFits held
    → t.finished ≡ false
    → Returns false left (state left held false stdout (reading []) (reading []) [] t)
reads_on left none t fit h going = reads_left left t fit going
reads_on left (some (k, l)) t fit h going =
    let (t1, go1, l1) = copies_held left k l t h going in
    let (u, over, l2) = reads_left left t1 fit go1 in (u, over, Later-trans l1 l2)

finishes :
    (left : List (Stream × String)) (held : Option (Stream × String)) (shut : Bool)
    (w v : List String) (r q : Bool) (ls : List LogEntry) (t : Tail)
    → IsTidy (
        state left held shut stdout
          (record { waiting = w; running = r })
          (record { waiting = v; running = q })
          ls
          t)
    → t.finished ≡ false
    → Returns shut left (
        state left held shut stdout
          (record { waiting = w; running = r })
          (record { waiting = v; running = q })
          ls
          t)
finishes left held true w v r q ls t h going =
    rest_then left held true w v r q ls t h.out h.errors h.out_fits h.errors_fits going (λ u still.
      subst (λ o. Returns true left (state left o true stdout (idle r) (idle q) [] u))
        (sym (h.free refl)) (returns left r q u still))
finishes left held false w v true true ls t h going =
    rest_then left held false w v true true ls t h.out h.errors h.out_fits h.errors_fits going
      (λ u still. reads_on left held u h.left_fits h.held_fits still)
finishes left held false w v false q ls t h going = absurd (cc (h.out refl refl).1)
finishes left held false w v true false ls t h going = absurd (cc (h.errors refl refl).1)

-- A state that is not done has a return.
tidy-Returns :
    (s : Streams) → IsTidy s → s.done ≡ false → s.tail.finished ≡ false → Returns s.closed s.left s
tidy-Returns s h live going =
    let same : s ≡ record s { done = false } = ap (λ b. record s { done = b }) live in
    subst (Returns s.closed s.left) (sym same) (
      finishes s.left s.held s.closed s.out.waiting s.errors.waiting s.out.running s.errors.running
        s.lines s.tail (subst IsTidy same h) going)

-- The goroutines of a tail never hold each other up for good. From every state that a tail reaches, if
-- no line is longer than the scanner takes and the context is not done, steps lead to one in which
-- the loop has returned and has shipped on each of the two streams, in their order, all the lines of
-- the log; or all but those not yet read, where the reading has ended before.
pub can_finish :
    (log : List (Stream × String)) {s : Streams}
    → LogFits log
    → Later (opened log) s
    → s.done ≡ false
    → (t : Streams) × Later s t
      × (t.tail.finished ≡ true)
      × ((st : Stream)
          → sent_on st (lines_of t.tail.shipped) ++ on st (readable s.closed s.left) ≡ on st log)
can_finish log {s} fit l live = elim (Bool-cases s.tail.finished) [
  | inl over ↦
      let (_, _, stop, _) = h.over over live in
      (
        s,
        here,
        over,
        λ st.
            subst
              (λ b. sent_on st (lines_of s.tail.shipped) ++ on st (readable b s.left) ≡ on st log)
              (sym (h.out stop live).1) (finished-shipped st log fit l over live),
      )
  | inr going ↦
      let (u, over, rest) = tidy-Returns s h live going in
      (_, rest, over, λ st. finished-shipped st log fit (Later-trans l rest) over refl)
]
  where
    h : IsTidy s
    h = Later-IsTidy (opened-IsTidy log fit) l
