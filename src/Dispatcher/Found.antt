-- ===== src/Dispatcher/Found.antt =====
-- internal/workers/dispatcher.go: looking up a goroutine's job by its id.
use gameserver_daemon.Common.{
  ◌+◌, ◌≤◌, String, ◌≡◌, refl, Option, none, some, List, [], ◌∷◌, ◌++◌, arith, ◌==◌, if◌then◌else◌,
}
use gameserver_daemon.Jobs.{Job}
use gameserver_daemon.Queue.Memory.Counts.{count_jobs, one_if}

unfoldable pub find_job : String → List Job → Option Job
find_job i [] = none
find_job i (j ∷ js) = if j.job_id == i then some j else find_job i js

pub find_job-nil : (i : String) → find_job i [] ≡ none
unfolding find_job
find_job-nil i = refl

pub find_job-cons :
    (i : String) (j : Job) (js : List Job)
    → find_job i (j ∷ js) ≡ (if j.job_id == i then some j else find_job i js)
unfolding find_job
find_job-cons i j js = refl

pub find_job_of_none : (i : String) (js : List Job) → count_jobs i js ≡ 0 → find_job i js ≡ none
unfolding find_job count_jobs
find_job_of_none i [] h = refl
find_job_of_none i (j ∷ js) h = ground (arith, find_job_of_none i js)

pub count_jobs-remove :
    (i : String) (xs : List Job) (j : Job) (ys : List Job)
    → count_jobs i (xs ++ (j ∷ ys)) ≡ one_if j.job_id i + count_jobs i (xs ++ ys)
unfolding count_jobs
count_jobs-remove i [] j ys = refl
count_jobs-remove i (x ∷ xs) j ys = omega (arith, count_jobs-remove i xs j ys)

-- Taking out a job whose id occurs once.
pub find_job-remove :
    (i : String) (xs : List Job) (j : Job) (ys : List Job)
    → count_jobs j.job_id (xs ++ (j ∷ ys)) ≤ 1
    → find_job i (xs ++ ys) ≡ (if j.job_id == i then none else find_job i (xs ++ (j ∷ ys)))
unfolding find_job count_jobs
find_job-remove i [] j ys h = ground (arith, find_job_of_none i ys)
find_job-remove i (x ∷ xs) j ys h =
    ground (arith, find_job-remove i xs j ys, count_jobs-remove j.job_id xs j ys)

pub find_job-middle :
    (xs : List Job) (j : Job) (ys : List Job)
    → count_jobs j.job_id (xs ++ (j ∷ ys)) ≤ 1
    → find_job j.job_id (xs ++ (j ∷ ys)) ≡ some j
unfolding find_job count_jobs
find_job-middle [] j ys h = ground arith
find_job-middle (x ∷ xs) j ys h =
    ground (arith, find_job-middle xs j ys, count_jobs-remove j.job_id xs j ys)
