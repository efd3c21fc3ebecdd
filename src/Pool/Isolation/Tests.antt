-- ===== src/Pool/Isolation/Tests.antt =====
-- A table that is closed between its functors, and two threads of which one closes the tables.
use arcae.Prelude.{
  ℕ, ◌≡◌, refl, true, false, Option, some, none, List, [], ◌∷◌, Result, ok, err, invalid, ◌==◌,
  if◌then◌else◌,
}
use arcae.Pool.Isolation.{
  task, close_table, Thread, Isolated, new_thread, run_task, run_close, close_instance, submit,
  run_async, make, invoke_on_instance, invoke,
}
use arcae.Pool.Isolation.Runs.{Run, stop, submits, closes, runs, run_next}
use arcae.Pool.Isolation.Answers.{expected, Run-expected}

-- Functor 9 throws.
abbrev functor : ℕ → Option (Result ℕ)
functor id = if id == 9 then none else some (ok id)

abbrev queued : Thread
queued = submit (task 9) (submit (task 7) new_thread)

-- The table is closed by another thread, and functor 3 is submitted behind that.
abbrev before_runs : Thread
before_runs = submit (task 3) (close_instance functor false (ok tt) queued)

abbrev first_ran : Thread
first_ran = run_next functor [] (task 7) (task 9 ∷ close_table (ok tt) ∷ task 3 ∷ []) before_runs

abbrev second_ran : Thread
second_ran = run_next functor [] (task 9) (close_table (ok tt) ∷ task 3 ∷ []) first_ran

abbrev closed_table : Thread
closed_table = run_next functor [] (close_table (ok tt)) (task 3 ∷ []) second_ran

abbrev at_end : Thread
at_end = run_next functor [] (task 3) [] closed_table

at_end-Run : Run functor new_thread at_end
unfolding run_task run_close close_instance
at_end-Run = submits (task 7) (
    submits (task 9) (
      closes false (ok tt) (
        submits (task 3) (
          runs [] (task 7) (task 9 ∷ close_table (ok tt) ∷ task 3 ∷ []) refl (
            runs [] (task 9) (close_table (ok tt) ∷ task 3 ∷ []) refl (
              runs [] (close_table (ok tt)) (task 3 ∷ []) refl
                (runs [] (task 3) [] refl (stop at_end))))))))

Run-expected_example : at_end.outcomes ≡ expected functor at_end.ran
Run-expected_example = Run-expected functor at_end-Run

at_end_test : at_end.outcomes ≡ (7, ok 7) ∷ (9, err invalid) ∷ (3, err invalid) ∷ []
unfolding run_task run_close close_instance invoke_on_instance invoke
at_end_test = refl

abbrev two_threads : Isolated
two_threads = record { threads = queued ∷ new_thread ∷ []; is_closed = false }

make_test :
    (run_async 0 7 two_threads
      ≡ ok (record two_threads { threads = submit (task 7) queued ∷ new_thread ∷ [] }))
    × (make (λ i. ok tt) 2
        ≡ ok (record { threads = new_thread ∷ new_thread ∷ []; is_closed = false }))
unfolding run_async make
make_test = (refl, refl)

-- `Close` is called on the second thread, which closes its table and waits for the first; that runs
-- functor 7.
abbrev after_one : List Thread
after_one =
    run_next functor [] (task 7) (task 9 ∷ close_table (ok tt) ∷ [])
      (close_instance functor false (ok tt) queued)
    ∷ close_instance functor true (ok tt) new_thread
    ∷ []
