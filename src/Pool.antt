-- ===== src/Pool.antt =====
-- cpp/arcae/isolated_table_proxy.h and isolated_table_proxy.cc: tasks are dispatched to instances of a
-- table, each of which has a thread of its own.
pub mod Dispatch
pub mod Steps
pub mod Isolation
mod Tests
use arcae.Prelude.{
  ℕ, zero, suc, ◌+◌, ◌-◌, ◌^◌, ◌<◌, ◌≡◌, Bool, Option, none, some, List, [], ◌∷◌, ◌++◌, length, ℤ,
  pos, ltb_ℤ, ◌-ℤ◌, ◌==◌, if◌then◌else◌,
}

-- `InstanceStats` without the times and the bytes, and the tasks of the instance, each by its cost: those
-- that are dispatched but that the pool does not hold, those that wait in the pool, and the one that
-- runs. Costs are bytes, so not negative.
pub record Instance : Type 0 where
  pub submitted : ℕ
  pub outstanding_cost : ℕ
  pub completed : ℕ
  pub reserved : List ℕ
  pub queue : List ℕ
  pub running : Option ℕ

abbrev pub new_instance : Instance
new_instance = record {
  submitted = 0;
  outstanding_cost = 0;
  completed = 0;
  reserved = [];
  queue = [];
  running = none;
}

abbrev pub Pool : Type 0
Pool = List Instance

-- `current_task`, of the thread that calls: its instance and its cost.
abbrev pub RunningTask : Type 0
RunningTask = Option (ℕ × ℕ)

-- The cost that instance `i` has to do. The cost of a running task is a part of what is outstanding.
unfoldable pub load : RunningTask → ℕ → Instance → ℤ
load none i stats = pos stats.outstanding_cost
load (some (instance_id, cost)) i stats =
    if i == instance_id then pos stats.outstanding_cost -ℤ pos cost else pos stats.outstanding_cost

-- `if (load < least) { instance = i; least = load; }`, for the instances from `i` on.
unfoldable pub choose_loop : RunningTask → Pool → ℕ → ℕ × ℤ → ℕ × ℤ
choose_loop current [] i best = best
choose_loop current (stats ∷ pools) i best =
    choose_loop current pools (suc i)
      (if ltb_ℤ (load current i stats) best.1 then (i, load current i stats) else best)

abbrev pub choose : RunningTask → Pool → ℕ
choose current pools = (choose_loop current pools 0 (0, pos (2 ^ 63 - 1))).0

abbrev pub at : ℕ → (Instance → Instance) → Pool → Pool
at i f [] = []
at zero f (stats ∷ pools) = f stats ∷ pools
at (suc i) f (stats ∷ pools) = stats ∷ at i f pools

-- The cost is reserved. That the task is submitted to the pool comes later.
unfoldable pub reserve : ℕ → Instance → Instance
reserve cost stats = record stats {
  submitted = suc stats.submitted;
  outstanding_cost = stats.outstanding_cost + cost;
  reserved = stats.reserved ++ cost ∷ [];
}

-- `TaskScope::~TaskScope`: the reservation is released.
unfoldable pub release : ℕ → Instance → Instance
release cost stats = record stats {
  outstanding_cost = stats.outstanding_cost - cost;
  completed = suc stats.completed;
  running = none;
}

-- `Dispatch`.
unfoldable pub dispatch : RunningTask → ℕ → Pool → Pool
dispatch current cost pools = at (choose current pools) (reserve cost) pools
