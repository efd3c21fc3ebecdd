-- ===== src/Pool/Tests.antt =====
-- Three instances, of which the first runs the task that dispatches another.
use arcae.Prelude.{pos, get_or, ◌≡◌, refl, some, none, [], ◌∷◌, All, arith, replicate}
use arcae.Pool.{Instance, Pool, new_instance, dispatch, choose_loop, load, reserve, RunningTask}
use arcae.Pool.Dispatch.{choose-IsFirstLeast, IsFirstLeast}
use arcae.Pool.Steps.{
  Reach, at_start, next, here, there, count, submit, start, IsBalanced, Reach-IsBalanced,
}

abbrev busy : Instance
busy = record {
  submitted = 1;
  outstanding_cost = 7;
  completed = 0;
  reserved = [];
  queue = [];
  running = some 7;
}

abbrev waiting : Instance
waiting = record {
  submitted = 1;
  outstanding_cost = 3;
  completed = 0;
  reserved = [];
  queue = 3 ∷ [];
  running = none;
}

abbrev pools : Pool
pools = waiting ∷ busy ∷ new_instance ∷ []

abbrev current : RunningTask
current = some (1, 7)

choose-IsFirstLeast_example : IsFirstLeast 1 (pos 3 ∷ pos 0 ∷ pos 0 ∷ [])
unfolding choose_loop load
choose-IsFirstLeast_example = choose-IsFirstLeast current pools (omega arith) (omega arith)

pools-Reach : Reach (replicate 3 new_instance) pools
unfolding reserve
pools-Reach =
    next
      (next
        (next
          (next (next at_start (here (count new_instance 3)))
            (here (submit (reserve 3 new_instance) 3 [] [] refl)))
          (there (here (count new_instance 7))))
        (there (here (submit (reserve 7 new_instance) 7 [] [] refl))))
      (there (
        here (
          start (record (reserve 7 new_instance) { reserved = []; queue = 7 ∷ [] }) 7 [] refl
            refl)))

dispatch_test :
    (λ (stats : Instance). stats.outstanding_cost) (get_or (dispatch current 5 pools) 1 busy) ≡ 12
unfolding dispatch choose_loop load reserve
dispatch_test = refl

Reach-IsBalanced_example : All IsBalanced pools
Reach-IsBalanced_example = Reach-IsBalanced 3 pools-Reach
