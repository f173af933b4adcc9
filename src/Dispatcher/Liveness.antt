-- ===== src/Dispatcher/Liveness.antt =====
-- internal/workers/dispatcher.go: the loop can always work off what has arrived.
use gameserver_daemon.Common.{
  ℕ, zero, suc, ◌+◌, ◌≤◌, ◌<◌, String, false, ◌≡◌, refl, ap, ◌∙◌, ◌⊎◌, inl, inr, Option,
  Option-cases, none, some, List, [], ◌∷◌, arith, length,
}
use gameserver_daemon.Common.Dict.{Dict, lookup}
use gameserver_daemon.Errors.{GoError}
use gameserver_daemon.Jobs.{Job}
use gameserver_daemon.Queue.Memory.{taken}
use gameserver_daemon.Queue.Memory.Invariant.{dequeue-eq}
use gameserver_daemon.Dispatcher.{
  State, Step, Reach, next, arrive, poll_empty, poll_unknown, poll_known, launch, finish, stop,
}
use gameserver_daemon.Dispatcher.Found.{find_job, find_job-nil}
use gameserver_daemon.Dispatcher.Invariant.{IsSound, holding}
use gameserver_daemon.Dispatcher.Steps.{taken_queue}
use gameserver_daemon.Dispatcher.Reachable.{Reach-IsSound}
use gameserver_daemon.Dispatcher.Runs.{steps_left, moves, arrives, Run, rest, step}
use gameserver_daemon.Dispatcher.Termination.{step-steps_left, Run-steps_left}

-- No job waits, is held or runs, and none is registered as being processed.
pub record IsDrained (s : State) : Type 0 where
  pub none_waits : s.queue.pending ≡ []
  pub none_held : s.held ≡ none
  pub none_runs : s.active ≡ []
  pub none_registered : (i : String) → lookup i s.queue.processing ≡ none

-- The handlers of a run have the given answers.
module _ {H : Type 0} {handlers : Dict H} {concurrency : ℕ} (answers : Job → Option GoError) where
  unfoldable pub Answered : {s t : State} → Step handlers concurrency s t → Type 0
  Answered (arrive s j fresh new) = Unit
  Answered (poll_empty s e q going free got) = Unit
  Answered (poll_unknown s j q going free got unknown) = Unit
  Answered (poll_known s j q h going free got known) = Unit
  Answered (launch s j mine room) = Unit
  Answered (finish s before j after answer e) = answer ≡ answers j
  Answered (stop s free) = Unit

  unfoldable pub Follows : {n : ℕ} {s t : State} → Run handlers concurrency n s t → Type 0
  unfolding Answered
  Follows (rest s) = Unit
  Follows (step st quiet later) = Answered st × Follows later

module _ {H : Type 0} (handlers : Dict H) (concurrency : ℕ) (answers : Job → Option GoError) where
  -- A step that moves a job on, after which the loop still goes.
  record Onward (s : State) : Type 0 where
    after : State
    moving : Step handlers concurrency s after
    moves_on : moves moving ≡ 1
    quiet : arrives moving ≡ false
    as_answered : Answered answers moving
    going : after.stopped ≡ false

  take_first_job :
      (s : State) (j : Job) (later : List Job)
      → s.stopped ≡ false
      → s.held ≡ none
      → s.queue.pending ≡ j ∷ later
      → IsSound concurrency s
      → Onward s
  unfolding moves arrives Answered
  take_first_job s j later going free e h = elim (Option-cases (lookup j.job_type handlers)) [
    | inl unknown ↦ record {
      after = _;
      moving =
          poll_unknown s (taken j) (taken_queue concurrency s j later e h) going free
            (dequeue-eq s.queue j later e) unknown;
      moves_on = refl;
      quiet = refl;
      as_answered = tt;
      going = going;
    }
    | inr (handler, known) ↦ record {
      after = _;
      moving =
          poll_known s (taken j) (taken_queue concurrency s j later e h) handler going free
            (dequeue-eq s.queue j later e) known;
      moves_on = refl;
      quiet = refl;
      as_answered = tt;
      going = going;
    }
  ]

  -- In a state where no job can be moved on there is none left.
  progress :
      (s : State) (active waiting : List Job) (held : Option Job)
      → s.active ≡ active
      → s.held ≡ held
      → s.queue.pending ≡ waiting
      → s.stopped ≡ false
      → 0 < concurrency
      → IsSound concurrency s
      → IsDrained s ⊎ Onward s
  unfolding moves arrives Answered
  progress s (j ∷ js) waiting held ea eh ew going room h = inr (record {
    after = _;
    moving = finish s [] j js (answers j) ea;
    moves_on = refl;
    quiet = refl;
    as_answered = refl;
    going = going;
  })
  progress s [] waiting (some j) ea eh ew going room h = inr (record {
    after = _;
    moving = launch s j eh (omega (arith, ap length ea, room));
    moves_on = refl;
    quiet = refl;
    as_answered = tt;
    going = going;
  })
  progress s [] (j ∷ later) none ea eh ew going room h =
      inr (take_first_job s j later going eh ew h)
  progress s [] [] none ea eh ew going room h = inl (record {
    none_waits = ew;
    none_held = eh;
    none_runs = ea;
    none_registered = λ i.
        h.linked i
        ∙ ap (λ o. find_job i (holding o s.active)) eh
        ∙ ap (find_job i) ea
        ∙ find_job-nil i;
  })

  -- A run that ends without a job left.
  pub record Drain (s : State) : Type 0 where
    pub count : ℕ
    pub final : State
    pub run : Run handlers concurrency count s final
    pub follows : Follows answers run
    pub drained : IsDrained final

  abbrev drained_already : (s : State) → IsDrained s → Drain s
  unfolding Follows
  drained_already s d = record { count = 0; final = s; run = rest s; follows = tt; drained = d }

  abbrev after_move : (s : State) (m : Onward s) → Drain m.after → Drain s
  unfolding Follows
  after_move s m d = record {
    count = moves m.moving + d.count;
    final = d.final;
    run = step m.moving m.quiet d.run;
    follows = (m.as_answered, d.follows);
    drained = d.drained;
  }

  Onward-steps_left :
      (s : State) (m : Onward s) → IsSound concurrency s → suc (steps_left m.after) ≤ steps_left s
  Onward-steps_left s m h =
      omega (arith, step-steps_left handlers concurrency m.moving h m.quiet, m.moves_on)

  no-Onward : (s : State) (m : Onward s) → IsSound concurrency s → steps_left s ≤ 0 → ⊥
  no-Onward s m h enough = omega (arith, Onward-steps_left s m h)

  drain_within :
      (fuel : ℕ) (s : State)
      → Reach handlers concurrency s
      → s.stopped ≡ false
      → 0 < concurrency
      → steps_left s ≤ fuel
      → Drain s
  drain_within zero s r going room enough =
      elim (progress s s.active s.queue.pending s.held refl refl refl going room
        (Reach-IsSound handlers concurrency r)) [
          | inl d ↦ drained_already s d
          | inr m ↦ absurd (no-Onward s m (Reach-IsSound handlers concurrency r) enough)
        ]
  drain_within (suc fuel) s r going room enough =
      elim (progress s s.active s.queue.pending s.held refl refl refl going room
        (Reach-IsSound handlers concurrency r)) [
          | inl d ↦ drained_already s d
          | inr m ↦ after_move s m (
              drain_within fuel m.after (next r m.moving) m.going room (
                omega
                  (arith, Onward-steps_left s m (Reach-IsSound handlers concurrency r), enough)))
        ]

  -- From every state that the daemon reaches, if its loop has not been stopped and there is at least
  -- one slot, and whatever the handlers are going to answer, there is a run without an arrival whose
  -- handlers answer so and which ends with no job waiting, held, running or registered as being
  -- processed. It moves jobs on at most `steps_left` times.
  pub drains :
      (s : State)
      → Reach handlers concurrency s
      → s.stopped ≡ false
      → 0 < concurrency
      → (n : ℕ) × (t : State) × (run : Run handlers concurrency n s t) × Follows answers run
        × IsDrained t
        × (n ≤ steps_left s)
  drains s r going room =
      let d = drain_within (steps_left s) s r going room (omega arith) in
      (
        d.count,
        d.final,
        d.run,
        d.follows,
        d.drained,
        omega (arith, Run-steps_left handlers concurrency r d.run),
      )
