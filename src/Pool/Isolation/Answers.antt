-- ===== src/Pool/Isolation/Answers.antt =====
-- What the functors on a thread return: those before the first close do what they do with an open
-- table, and those after it fail.
use arcae.Prelude.{
  ℕ, ◌≡◌, refl, sym, ap, ◌∙◌, Bool, true, false, Option, List, [], ◌∷◌, ◌++◌, map, append-nil,
  Result, ok, err, invalid,
}
use arcae.Pool.Isolation.{
  Job, task, close_table, Thread, new_thread, invoke, invoke_on_instance, run_task, run_close,
  run_job, close_instance,
}
use arcae.Pool.Isolation.Runs.{Run, stop, submits, closes, runs}

-- The functors among the jobs.
abbrev pub tasks : List Job → List ℕ
tasks [] = []
tasks (task id ∷ jobs) = id ∷ tasks jobs
tasks (close_table answer ∷ jobs) = tasks jobs

-- The jobs before the first close that casacore made, and those after it.
abbrev pub before_close : List Job → List Job
before_close [] = []
before_close (task id ∷ jobs) = task id ∷ before_close jobs
before_close (close_table (ok _) ∷ jobs) = []
before_close (close_table (err status) ∷ jobs) = before_close jobs

abbrev pub after_close : List Job → List Job
after_close [] = []
after_close (task id ∷ jobs) = after_close jobs
after_close (close_table (ok _) ∷ jobs) = jobs
after_close (close_table (err status) ∷ jobs) = after_close jobs

-- Whether the table is open after the jobs.
abbrev pub open_after : Bool → List Job → Bool
open_after is_open [] = is_open
open_after is_open (task id ∷ jobs) = open_after is_open jobs
open_after is_open (close_table (ok _) ∷ jobs) = open_after false jobs
open_after is_open (close_table (err status) ∷ jobs) = open_after is_open jobs

pub open_after-append :
    (is_open : Bool) (xs ys : List Job)
    → open_after is_open (xs ++ ys) ≡ open_after (open_after is_open xs) ys
open_after-append is_open [] ys = refl
open_after-append is_open (task id ∷ xs) ys = open_after-append is_open xs ys
open_after-append is_open (close_table (ok _) ∷ xs) ys = open_after-append false xs ys
open_after-append is_open (close_table (err status) ∷ xs) ys = open_after-append is_open xs ys

module _ (functor : ℕ → Option (Result ℕ)) where
  -- The outcomes that the jobs have.
  abbrev pub expected : List Job → List (ℕ × Result ℕ)
  expected jobs =
      map (λ id. (id, invoke functor id)) (tasks (before_close jobs))
      ++ map (λ id. (id, err invalid)) (tasks (after_close jobs))

  -- The same from a table that is open or closed, job by job.
  abbrev answers : Bool → List Job → List (ℕ × Result ℕ)
  answers is_open [] = []
  answers is_open (task id ∷ jobs) =
      (id, invoke_on_instance functor is_open id) ∷ answers is_open jobs
  answers is_open (close_table (ok _) ∷ jobs) = answers false jobs
  answers is_open (close_table (err status) ∷ jobs) = answers is_open jobs

  answers-closed :
      (jobs : List Job) → answers false jobs ≡ map (λ id. (id, err invalid)) (tasks jobs)
  unfolding invoke_on_instance
  answers-closed [] = refl
  answers-closed (task id ∷ jobs) = ap (λ rest. (id, err invalid) ∷ rest) (answers-closed jobs)
  answers-closed (close_table (ok _) ∷ jobs) = answers-closed jobs
  answers-closed (close_table (err status) ∷ jobs) = answers-closed jobs

  answers-expected : (jobs : List Job) → answers true jobs ≡ expected jobs
  unfolding invoke_on_instance
  answers-expected [] = refl
  answers-expected (task id ∷ jobs) =
      ap (λ rest. (id, invoke functor id) ∷ rest) (answers-expected jobs)
  answers-expected (close_table (ok _) ∷ jobs) = answers-closed jobs
  answers-expected (close_table (err status) ∷ jobs) = answers-expected jobs

  answers-append :
      (is_open : Bool) (xs ys : List Job)
      → answers is_open (xs ++ ys) ≡ answers is_open xs ++ answers (open_after is_open xs) ys
  answers-append is_open [] ys = refl
  answers-append is_open (task id ∷ xs) ys =
      ap (λ rest. (id, invoke_on_instance functor is_open id) ∷ rest) (answers-append is_open xs ys)
  answers-append is_open (close_table (ok _) ∷ xs) ys = answers-append false xs ys
  answers-append is_open (close_table (err status) ∷ xs) ys = answers-append is_open xs ys

  -- The state of the thread is that of the jobs it ran.
  abbrev Follows : Thread → Type 0
  Follows thread =
      (thread.is_open ≡ open_after true thread.ran) × (thread.outcomes ≡ answers true thread.ran)

  run_job-Follows :
      (job : Job) (thread : Thread) → Follows thread → Follows (run_job functor job thread)
  unfolding run_task run_close
  run_job-Follows (task id) thread (opened, same) = (
    opened ∙ sym (open_after-append true thread.ran (task id ∷ [])),
    ap (λ outcomes. outcomes ++ (id, invoke_on_instance functor thread.is_open id) ∷ []) same
        ∙ ap (λ b. answers true thread.ran ++ (id, invoke_on_instance functor b id) ∷ []) opened
        ∙ sym (answers-append true thread.ran (task id ∷ [])),
  )
  run_job-Follows (close_table (ok u)) thread (opened, same) = (
    sym (open_after-append true thread.ran (close_table (ok tt) ∷ [])),
    same
        ∙ sym (append-nil (answers true thread.ran))
        ∙ sym (answers-append true thread.ran (close_table (ok tt) ∷ [])),
  )
  run_job-Follows (close_table (err status)) thread (opened, same) = (
    opened ∙ sym (open_after-append true thread.ran (close_table (err status) ∷ [])),
    same
        ∙ sym (append-nil (answers true thread.ran))
        ∙ sym (answers-append true thread.ran (close_table (err status) ∷ [])),
  )

  close_instance-Follows :
      (owns : Bool) (answer : Result (Unit {0})) (thread : Thread)
      → Follows thread
      → Follows (close_instance functor owns answer thread)
  unfolding close_instance
  close_instance-Follows true answer thread f = run_job-Follows (close_table answer) thread f
  close_instance-Follows false answer thread f = f

  Run-Follows : {thread after : Thread} → Run functor thread after → Follows thread → Follows after
  Run-Follows (stop thread) f = f
  Run-Follows (submits job r) f = Run-Follows r f
  Run-Follows (closes {thread = thread} owns answer r) f =
      Run-Follows r (close_instance-Follows owns answer thread f)
  Run-Follows (runs {thread = thread} before job later e r) f =
      Run-Follows r (run_job-Follows job (record thread { jobs = before ++ later }) f)

  -- Whatever is submitted to a thread, in whatever order its jobs are run, and whoever closes the
  -- table: the functors that ran before the first close that casacore made have what they return, or
  -- an error for an exception, and each one that ran after it has failed.
  pub Run-expected :
      {after : Thread} → Run functor new_thread after → after.outcomes ≡ expected after.ran
  Run-expected {after = after} r = (Run-Follows r (refl, refl)).1 ∙ answers-expected after.ran
