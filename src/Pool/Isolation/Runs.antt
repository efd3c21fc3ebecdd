-- ===== src/Pool/Isolation/Runs.antt =====
-- What may happen to a thread, and to all threads while `Close` waits.
use arcae.Prelude.{ℕ, suc, ◌≡◌, Bool, false, Option, List, ◌∷◌, ◌++◌, Result}
use arcae.Pool.Isolation.{Job, task, Thread, run_job, close_instance, owns, submit, submit_at}

module _ (functor : ℕ → Option (Result ℕ)) where
  -- A job that waits is taken and run.
  abbrev pub run_next : List Job → Job → List Job → Thread → Thread
  run_next before job later thread = run_job functor job (record thread { jobs = before ++ later })

  -- Jobs are submitted, the table is closed by a call on the thread or on another one, and jobs that
  -- wait are run.
  pub data Run : Thread → Thread → Type 0 where
    stop : (thread : Thread) → Run thread thread
    submits : {thread after : Thread} (job : Job) → Run (submit job thread) after → Run thread after
    closes :
        {thread after : Thread} (owns_this_thread : Bool) (answer : Result (Unit {0}))
        → Run (close_instance functor owns_this_thread answer thread) after
        → Run thread after
    runs :
        {thread after : Thread} (before : List Job) (job : Job) (later : List Job)
        → thread.jobs ≡ before ++ job ∷ later
        → Run (run_next before job later thread) after
        → Run thread after

  -- While the thread of `owner` waits in `Close`, another one runs a job; `i` is the first instance.
  pub data Work (owner : Option ℕ) : ℕ → List Thread → List Thread → Type 0 where
    here :
        {i : ℕ} {thread : Thread} {threads : List Thread} (before : List Job) (job : Job)
        (later : List Job)
        → owns owner i ≡ false
        → thread.jobs ≡ before ++ job ∷ later
        → Work owner i (thread ∷ threads) (run_next before job later thread ∷ threads)
    there :
        {i : ℕ} {thread : Thread} {threads after : List Thread}
        → Work owner (suc i) threads after
        → Work owner i (thread ∷ threads) (thread ∷ after)

  -- So many jobs are run, and so many functors are submitted to instances.
  pub data Works (owner : Option ℕ) : ℕ → ℕ → List Thread → List Thread → Type 0 where
    at_start : (threads : List Thread) → Works owner 0 0 threads threads
    works :
        {n m : ℕ} {threads next after : List Thread}
        → Works owner n m threads next
        → Work owner 0 next after
        → Works owner (suc n) m threads after
    gets :
        {n m : ℕ} {threads next : List Thread} (instance_id id : ℕ)
        → Works owner n m threads next
        → Works owner n (suc m) threads (submit_at instance_id (task id) next)
