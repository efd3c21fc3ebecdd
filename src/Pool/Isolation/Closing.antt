-- ===== src/Pool/Isolation/Closing.antt =====
-- The wait of `Close` is for other threads only, so that it ends.
use arcae.Prelude.{ℕ, suc, ◌+◌, ◌≡◌, ◌⊎◌, true, false, Option, List, [], ◌∷◌, length, ok, err}
use arcae.Pool.Isolation.{Job, task, close_table, Thread, owns, has_close}

-- The jobs of all threads.
abbrev pub n_jobs : List Thread → ℕ
n_jobs [] = 0
n_jobs (thread ∷ threads) = length thread.jobs + n_jobs threads

-- casacore makes each close that waits.
AllMade : List Job → Type 0
AllMade [] = Unit
AllMade (task id ∷ jobs) = AllMade jobs
AllMade (close_table (ok _) ∷ jobs) = AllMade jobs
AllMade (close_table (err status) ∷ jobs) = ⊥

-- The table of the thread is closed, or will be.
abbrev WillClose : Thread → Type 0
WillClose thread = (thread.is_open ≡ false) ⊎ (has_close thread.jobs ≡ true)

-- The thread that waits has no close to run itself.
abbrev Waits : Option ℕ → ℕ → Thread → Type 0
Waits owner i thread =
    (owns owner i ≡ true → has_close thread.jobs ≡ false) × AllMade thread.jobs × WillClose thread

abbrev WaitsAll : Option ℕ → ℕ → List Thread → Type 0
WaitsAll owner i [] = Unit
WaitsAll owner i (thread ∷ threads) = Waits owner i thread × WaitsAll owner (suc i) threads
