-- ===== src/Pool/Isolation.antt =====
-- The isolation threads of cpp/arcae/isolated_table_proxy.h and isolated_table_proxy.cc: each runs the
-- jobs of an instance of the table, and `Close` closes each table on its thread. The thread pools are
-- those of Arrow, which is not part of the repository: a pool of one thread runs the jobs it holds one
-- after the other, and nothing is assumed of the order in which it takes them.
pub mod Answers
pub mod Closing
pub mod Runs
mod Tests
use arcae.Prelude.{
  ℕ, zero, suc, ◌==◌, Bool, true, false, ◌&&◌, not, Option, none, some, List, [], ◌∷◌, ◌++◌, length,
  if◌then◌else◌, Result, ok, err, invalid, ◌>>=◌, ◌>>◌, fail_if, ltb,
}

-- A job: a functor, by its number, or the close of the table, with what casacore answers.
pub data Job : Type 0 where
  task : ℕ → Job
  close_table : Result (Unit {0}) → Job

-- An instance: the jobs its pool has not run and those it has, whether its table is open, and what each
-- functor returned.
pub record Thread : Type 0 where
  pub jobs : List Job
  pub ran : List Job
  pub is_open : Bool
  pub outcomes : List (ℕ × Result ℕ)

abbrev pub new_thread : Thread
new_thread = record { jobs = []; ran = []; is_open = true; outcomes = [] }

-- `IsolatedTableProxy`: its instances and `is_closed_`.
pub record Isolated : Type 0 where
  pub threads : List Thread
  pub is_closed : Bool

-- Whether the thread of instance `i` is the one that calls, if one of them does.
abbrev pub owns : Option ℕ → ℕ → Bool
owns none i = false
owns (some o) i = i == o

-- What a functor does with an open table: it returns, or throws, which is `none`.
module _ (functor : ℕ → Option (Result ℕ)) where
  -- `Invoke`.
  unfoldable pub invoke : ℕ → Result ℕ
  invoke id = elim (functor id) [ some outcome ↦ outcome | none ↦ err invalid ]

  -- `InvokeOnInstance`, of a table that is open or closed.
  unfoldable pub invoke_on_instance : Bool → ℕ → Result ℕ
  invoke_on_instance is_open id = if not is_open then err invalid else invoke id

  -- The task that `RunAsync` submits is run on the thread.
  unfoldable pub run_task : ℕ → Thread → Thread
  run_task id thread = record thread {
    ran = thread.ran ++ task id ∷ [];
    outcomes = thread.outcomes ++ (id, invoke_on_instance thread.is_open id) ∷ [];
  }

  -- The table is closed on the thread.
  unfoldable pub run_close : Result (Unit {0}) → Thread → Thread
  run_close (ok _) thread = record thread {
    ran = thread.ran ++ close_table (ok tt) ∷ [];
    is_open = false;
  }
  run_close (err status) thread = record thread {
    ran = thread.ran ++ close_table (err status) ∷ [];
  }

  abbrev pub run_job : Job → Thread → Thread
  run_job (task id) thread = run_task id thread
  run_job (close_table answer) thread = run_close answer thread

  -- What `Close` does to an instance, on whose thread it is called or not.
  unfoldable pub close_instance : Bool → Result (Unit {0}) → Thread → Thread
  close_instance owns_this_thread answer thread =
      if owns_this_thread
      then run_close answer thread
      else record thread { jobs = thread.jobs ++ close_table answer ∷ [] }

  -- The loop over the instances from `i` on, called on the thread of `owner`, if that is one of them.
  unfoldable pub close_loop : Option ℕ → (ℕ → Result (Unit {0})) → ℕ → List Thread → List Thread
  close_loop owner answers i [] = []
  close_loop owner answers i (thread ∷ threads) =
      close_instance (owns owner i) (answers i) thread ∷ close_loop owner answers (suc i) threads

  -- `Close`, up to where it waits: whether there is something to close.
  unfoldable pub start_close : Option ℕ → (ℕ → Result (Unit {0})) → Isolated → Bool × Isolated
  start_close owner answers proxy =
      if not proxy.is_closed
      then (true, record proxy { threads = close_loop owner answers 0 proxy.threads })
      else (false, proxy)

-- A close waits among the jobs.
abbrev pub has_close : List Job → Bool
has_close [] = false
has_close (task id ∷ jobs) = has_close jobs
has_close (close_table answer ∷ jobs) = true

-- What `all_done.Wait()` waits for, where no other close was submitted before.
abbrev pub all_done : List Thread → Bool
all_done [] = true
all_done (thread ∷ threads) = not (has_close thread.jobs) && all_done threads

-- The first failure of `rounds` closes from instance `i` on.
abbrev pub first_failure : (ℕ → Result (Unit {0})) → ℕ → ℕ → Result (Unit {0})
first_failure answers zero i = ok tt
first_failure answers (suc rounds) i = answers i >> first_failure answers rounds (suc i)

-- `inline_status`, of a number of instances.
abbrev pub inline_status : Option ℕ → (ℕ → Result (Unit {0})) → ℕ → Result (Unit {0})
inline_status none answers n = ok tt
inline_status (some o) answers n = if ltb o n then answers o else ok tt

-- `Close`, after it has waited: what it returns, and the proxy.
unfoldable pub end_close : Option ℕ → (ℕ → Result (Unit {0})) → Isolated → Result Bool × Isolated
end_close owner answers proxy = (
  inline_status owner answers (length proxy.threads)
      >> (first_failure answers (length proxy.threads) 0 >> ok true),
  record proxy { is_closed = true },
)

abbrev pub submit : Job → Thread → Thread
submit job thread = record thread { jobs = thread.jobs ++ job ∷ [] }

abbrev pub submit_at : ℕ → Job → List Thread → List Thread
submit_at i job [] = []
submit_at zero job (thread ∷ threads) = submit job thread ∷ threads
submit_at (suc i) job (thread ∷ threads) = thread ∷ submit_at i job threads

-- `CheckClosed`.
abbrev pub check_closed : Isolated → Result (Unit {0})
check_closed proxy = fail_if proxy.is_closed invalid

-- `RunAsync`, of a functor that is dispatched to an instance.
unfoldable pub run_async : ℕ → ℕ → Isolated → Result Isolated
run_async instance_id id proxy =
    check_closed proxy
    >> ok (record proxy { threads = submit_at instance_id (task id) proxy.threads })

-- What the functor that opens a table returns for each instance from `i` on, until one fails.
abbrev pub open_loop : (ℕ → Result (Unit {0})) → ℕ → ℕ → Result (List Thread)
open_loop opened zero i = ok []
open_loop opened (suc n) i =
    opened i >>= λ _. open_loop opened n (suc i) >>= λ threads. ok (new_thread ∷ threads)

-- `Make`.
unfoldable pub make : (ℕ → Result (Unit {0})) → ℕ → Result Isolated
make opened ninstances = do
  fail_if (ltb ninstances 1) invalid
  threads ← open_loop opened ninstances 0
  ok (record { threads = threads; is_closed = false })
