-- ===== src/Pool/Steps.antt =====
-- The tasks of the instances over time: what is outstanding is what the tasks that are not done cost.
use arcae.Prelude.{
  ℕ, zero, suc, ◌+◌, ◌<◌, ◌≡◌, refl, ap, ◌∙◌, Option, none, some, List, [], ◌∷◌, ◌++◌, length,
  length-snoc, sum, All, arith, replicate,
}
use arcae.Pool.{Instance, Pool, new_instance, at, reserve, release, dispatch, choose, RunningTask}

-- What an instance does. Dispatching chooses an instance and reserves the cost on it in two steps, so
-- another thread may reserve costs between: here a cost is reserved on any instance. The task is
-- submitted to the pool after that. A pool that is shut down does not take it, or drops it: then it
-- keeps its reservation.
pub data InstanceStep : Instance → Instance → Type 0 where
  count : (stats : Instance) (cost : ℕ) → InstanceStep stats (reserve cost stats)
  submit :
      (stats : Instance) (cost : ℕ) (before later : List ℕ)
      → stats.reserved ≡ before ++ cost ∷ later
      → InstanceStep stats
          (record stats { reserved = before ++ later; queue = stats.queue ++ cost ∷ [] })
  drop :
      (stats : Instance) (cost : ℕ) (before later : List ℕ)
      → stats.queue ≡ before ++ cost ∷ later
      → InstanceStep stats
          (record stats { queue = before ++ later; reserved = stats.reserved ++ cost ∷ [] })
  start :
      (stats : Instance) (cost : ℕ) (queue : List ℕ)
      → stats.running ≡ none
      → stats.queue ≡ cost ∷ queue
      → InstanceStep stats (record stats { queue = queue; running = some cost })
  finish :
      (stats : Instance) (cost : ℕ)
      → stats.running ≡ some cost
      → InstanceStep stats (release cost stats)

pub data Step : Pool → Pool → Type 0 where
  here :
      {stats stats' : Instance} {pools : Pool}
      → InstanceStep stats stats'
      → Step (stats ∷ pools) (stats' ∷ pools)
  there :
      {stats : Instance} {pools pools' : Pool}
      → Step pools pools'
      → Step (stats ∷ pools) (stats ∷ pools')

pub data Reach (start : Pool) : Pool → Type 0 where
  at_start : Reach start start
  next : {pools pools' : Pool} → Reach start pools → Step pools pools' → Reach start pools'

abbrev pub running_cost : Option ℕ → ℕ
running_cost none = 0
running_cost (some cost) = cost

abbrev pub n_running : Option ℕ → ℕ
n_running none = 0
n_running (some cost) = 1

-- What is outstanding, and the tasks that are not completed, of which some may be dropped.
abbrev pub IsBalanced : Instance → Type 0
IsBalanced stats =
    (stats.outstanding_cost ≡ sum stats.reserved + sum stats.queue + running_cost stats.running)
    × (stats.submitted
        ≡ stats.completed + length stats.reserved + length stats.queue + n_running stats.running)

sum-snoc : (queue : List ℕ) (cost : ℕ) → sum (queue ++ cost ∷ []) ≡ sum queue + cost
sum-snoc [] cost = omega arith
sum-snoc (c ∷ queue) cost = let rest = sum-snoc queue cost in omega arith

sum-taken :
    (before : List ℕ) (cost : ℕ) (later : List ℕ)
    → sum (before ++ cost ∷ later) ≡ cost + sum (before ++ later)
sum-taken [] cost later = refl
sum-taken (c ∷ before) cost later = let rest = sum-taken before cost later in omega arith

length-taken :
    (before : List ℕ) (cost : ℕ) (later : List ℕ)
    → length (before ++ cost ∷ later) ≡ suc (length (before ++ later))
length-taken [] cost later = refl
length-taken (c ∷ before) cost later = ap suc (length-taken before cost later)

InstanceStep-IsBalanced : {s t : Instance} → InstanceStep s t → IsBalanced s → IsBalanced t
unfolding reserve release
InstanceStep-IsBalanced (count stats cost) b =
    let sums = sum-snoc stats.reserved cost in
    let lengths = length-snoc stats.reserved cost in (omega (arith, b), omega (arith, b))
InstanceStep-IsBalanced (submit stats cost before later e) b =
    let sums = ap sum e ∙ sum-taken before cost later in
    let lengths = ap length e ∙ length-taken before cost later in
    let sums' = sum-snoc stats.queue cost in
    let lengths' = length-snoc stats.queue cost in (omega (arith, b), omega (arith, b))
InstanceStep-IsBalanced (drop stats cost before later e) b =
    let sums = ap sum e ∙ sum-taken before cost later in
    let lengths = ap length e ∙ length-taken before cost later in
    let sums' = sum-snoc stats.reserved cost in
    let lengths' = length-snoc stats.reserved cost in (omega (arith, b), omega (arith, b))
InstanceStep-IsBalanced (start stats cost queue r q) b =
    let cost_eq = ap running_cost r in
    let n_eq = ap n_running r in
    let sums = ap sum q in let lengths = ap length q in (omega (arith, b), omega (arith, b))
InstanceStep-IsBalanced (finish stats cost r) b =
    let cost_eq = ap running_cost r in
    let n_eq = ap n_running r in (omega (arith, b), omega (arith, b))

Step-IsBalanced : {s t : Pool} → Step s t → All IsBalanced s → All IsBalanced t
Step-IsBalanced (here i) b = (InstanceStep-IsBalanced i b.0, b.1)
Step-IsBalanced (there s) b = (b.0, Step-IsBalanced s b.1)

new-IsBalanced : (n : ℕ) → All IsBalanced (replicate n new_instance)
new-IsBalanced zero = tt
new-IsBalanced (suc n) = ((refl, refl), new-IsBalanced n)

-- Whatever the order in which threads reserve costs and submit tasks, and tasks start, finish and are
-- dropped by a pool that is shut down: what is outstanding on each instance is the cost of the tasks
-- that the pool does not hold yet or has dropped, of those that wait and of the one that runs. As many
-- tasks were counted as submitted as were completed, are not held by the pool, wait and run.
pub Reach-IsBalanced :
    (n : ℕ) {pools : Pool} → Reach (replicate n new_instance) pools → All IsBalanced pools
Reach-IsBalanced n at_start = new-IsBalanced n
Reach-IsBalanced n (next r s) = Step-IsBalanced s (Reach-IsBalanced n r)

at-Step : (i cost : ℕ) (pools : Pool) → i < length pools → Step pools (at i (reserve cost) pools)
at-Step i cost [] l = absurd (omega arith)
at-Step zero cost (stats ∷ pools) l = here (count stats cost)
at-Step (suc i) cost (stats ∷ pools) l = there (at-Step i cost pools (omega arith))

-- `Dispatch` is such a step.
pub dispatch-Step :
    (current : RunningTask) (cost : ℕ) (pools : Pool)
    → choose current pools < length pools
    → Step pools (dispatch current cost pools)
unfolding dispatch
dispatch-Step current cost pools l = at-Step (choose current pools) cost pools l
