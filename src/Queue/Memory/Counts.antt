-- ===== src/Queue/Memory/Counts.antt =====
-- How often a job id occurs in the lists and maps of the memory queue.
use gameserver_daemon.Common.{
  ℕ, ◌+◌, ◌≤◌, String, ◌≡◌, refl, none, some, List, [], ◌∷◌, ◌++◌, arith, ◌==◌, if◌then◌else◌,
}
use gameserver_daemon.Common.Dict.{Dict, lookup, insert, erase}
use gameserver_daemon.Jobs.{Job}

abbrev pub one_if : String → String → ℕ
one_if k i = if k == i then 1 else 0

unfoldable pub count_jobs : String → List Job → ℕ
count_jobs i [] = 0
count_jobs i (j ∷ js) = one_if j.job_id i + count_jobs i js

unfoldable pub count_entries : String → Dict Job → ℕ
count_entries i [] = 0
count_entries i ((k, j) ∷ d) = one_if k i + count_entries i d

-- Every entry stands under its job's own id.
abbrev pub Keyed : Dict Job → Type 0
Keyed [] = Unit
Keyed ((k, j) ∷ d) = (j.job_id ≡ k) × Keyed d

pub count_jobs-nil : (i : String) → count_jobs i [] ≡ 0
unfolding count_jobs
count_jobs-nil i = refl

pub count_jobs-cons :
    (i : String) (j : Job) (js : List Job)
    → count_jobs i (j ∷ js) ≡ one_if j.job_id i + count_jobs i js
unfolding count_jobs
count_jobs-cons i j js = refl

pub count_jobs-append :
    (i : String) (xs ys : List Job) → count_jobs i (xs ++ ys) ≡ count_jobs i xs + count_jobs i ys
unfolding count_jobs
count_jobs-append i [] ys = omega arith
count_jobs-append i (x ∷ xs) ys = omega (arith, count_jobs-append i xs ys)

pub count_jobs-snoc :
    (i : String) (xs : List Job) (j : Job)
    → count_jobs i (xs ++ j ∷ []) ≡ count_jobs i xs + one_if j.job_id i
count_jobs-snoc i xs j =
    omega (arith, count_jobs-append i xs (j ∷ []), count_jobs-cons i j [], count_jobs-nil i)

pub count_entries-insert_new :
    (i k : String) (j : Job) (d : Dict Job)
    → count_entries k d ≡ 0
    → count_entries i (insert k j d) ≡ one_if k i + count_entries i d
unfolding count_entries insert
count_entries-insert_new i k j [] h = refl
count_entries-insert_new i k j ((l, v) ∷ d) h = ground (arith, count_entries-insert_new i k j d)

pub count_entries-erase :
    (i k : String) (d : Dict Job)
    → count_entries i (erase k d) ≡ (if k == i then 0 else count_entries i d)
unfolding count_entries erase
count_entries-erase i k [] = ground arith
count_entries-erase i k ((l, v) ∷ d) = ground (arith, count_entries-erase i k d)

pub count_entries_of_some :
    (k : String) (d : Dict Job) (j : Job) → lookup k d ≡ some j → 1 ≤ count_entries k d
unfolding count_entries lookup
count_entries_of_some k [] j h = ground arith
count_entries_of_some k ((l, v) ∷ d) j h = ground (arith, count_entries_of_some k d j)

pub absent_of_count : (k : String) (d : Dict Job) → count_entries k d ≡ 0 → lookup k d ≡ none
unfolding count_entries lookup
absent_of_count k [] h = refl
absent_of_count k ((l, v) ∷ d) h = ground (arith, absent_of_count k d)

pub insert-Keyed : (j : Job) (d : Dict Job) → Keyed d → Keyed (insert j.job_id j d)
unfolding insert
insert-Keyed j [] h = (refl, tt)
insert-Keyed j ((l, v) ∷ d) h = ground (arith, insert-Keyed j d h.1)

pub erase-Keyed : (k : String) (d : Dict Job) → Keyed d → Keyed (erase k d)
unfolding erase
erase-Keyed k [] h = tt
erase-Keyed k ((l, v) ∷ d) h = ground (arith, erase-Keyed k d h.1)

pub lookup-Keyed :
    (k : String) (d : Dict Job) (j : Job) → Keyed d → lookup k d ≡ some j → j.job_id ≡ k
unfolding lookup
lookup-Keyed k [] j h e = ground arith
lookup-Keyed k ((l, v) ∷ d) j h e = ground (arith, lookup-Keyed k d j h.1)
