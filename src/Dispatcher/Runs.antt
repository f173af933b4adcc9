-- ===== src/Dispatcher/Runs.antt =====
-- internal/workers/dispatcher.go: runs of the loop and its goroutines between two arrivals, and the
-- work that a state has left.
use Prim.Native.Nat.{max}
use gameserver_daemon.Common.{
  ℕ, ◌+◌, ◌-◌, ◌*◌, Bool, true, false, ◌≡◌, Option, none, some, List, [], ◌∷◌, ◌++◌, arith,
}
use gameserver_daemon.Common.Dict.{Dict}
use gameserver_daemon.Jobs.{Job}
use gameserver_daemon.Dispatcher.{
  State, Step, arrive, poll_empty, poll_unknown, poll_known, launch, finish, stop,
}

-- The attempts that a job has left: the loop gives every job one.
abbrev pub left : Job → ℕ
left j = max 1 j.max_attempts - j.attempts

-- The steps that a waiting job, one that the loop holds and one that runs may still take.
unfoldable pub waiting_steps : List Job → ℕ
waiting_steps [] = 0
waiting_steps (j ∷ js) = 3 * left j + waiting_steps js

abbrev pub held_steps : Option Job → ℕ
held_steps none = 0
held_steps (some j) = 3 * left j + 2

unfoldable pub active_steps : List Job → ℕ
active_steps [] = 0
active_steps (j ∷ js) = 3 * left j + 1 + active_steps js

abbrev pub steps_left : State → ℕ
steps_left s = waiting_steps s.queue.pending + (held_steps s.held + active_steps s.active)

pub waiting_steps-append :
    (xs ys : List Job) → waiting_steps (xs ++ ys) ≡ waiting_steps xs + waiting_steps ys
unfolding waiting_steps
waiting_steps-append [] ys = omega arith
waiting_steps-append (x ∷ xs) ys = omega (arith, waiting_steps-append xs ys)

pub active_steps-remove :
    (xs : List Job) (j : Job) (ys : List Job)
    → active_steps (xs ++ (j ∷ ys)) ≡ 3 * left j + 1 + active_steps (xs ++ ys)
unfolding active_steps
active_steps-remove [] j ys = omega arith
active_steps-remove (x ∷ xs) j ys = omega (arith, active_steps-remove xs j ys)

module _ {H : Type 0} {handlers : Dict H} {concurrency : ℕ} where
  -- Whether a step brings a new job, and whether it moves one on.
  unfoldable pub arrives : {s t : State} → Step handlers concurrency s t → Bool
  arrives (arrive s j fresh new) = true
  arrives (poll_empty s e q going free got) = false
  arrives (poll_unknown s j q going free got unknown) = false
  arrives (poll_known s j q h going free got known) = false
  arrives (launch s j mine room) = false
  arrives (finish s before j after answer e) = false
  arrives (stop s free) = false

  unfoldable pub moves : {s t : State} → Step handlers concurrency s t → ℕ
  moves (arrive s j fresh new) = 0
  moves (poll_empty s e q going free got) = 0
  moves (poll_unknown s j q going free got unknown) = 1
  moves (poll_known s j q h going free got known) = 1
  moves (launch s j mine room) = 1
  moves (finish s before j after answer e) = 1
  moves (stop s free) = 0

-- The runs without an arrival, by the number of their steps that move a job on.
pub data Run {H : Type 0} (handlers : Dict H) (concurrency : ℕ) : ℕ → State → State → Type 0 where
  rest : (s : State) → Run handlers concurrency 0 s s
  step :
      {n : ℕ} {s t u : State} (st : Step handlers concurrency s t)
      → arrives st ≡ false
      → Run handlers concurrency n t u
      → Run handlers concurrency (moves st + n) s u
