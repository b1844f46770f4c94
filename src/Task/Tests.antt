-- ===== src/Task/Tests.antt =====
-- Runs of the tasks of src/task/task.c: two tasks made on an empty list.
use alpha_os.Prelude.{
  ℕ, ◌≤◌, ◌≡◌, refl, Option, none, some, [], ◌∷◌, ◌==◌, if◌then◌else◌, arith, ok,
}
use alpha_os.Task.{Tasks, Task, task_new, task_free, zero_registers}
use alpha_os.Task.Links.{IsQueue}
use alpha_os.Task.Insert.{task_new-Inserted}
use alpha_os.Task.Round.{switches, task_next-reaches}
use alpha_os.Task.Stale.{task_free_twice}

abbrev no_tasks : Tasks
no_tasks = record { store = λ p. none; task_head = 0; task_tail = 0; current_task = 0 }

no_tasks-IsQueue : IsQueue no_tasks []
no_tasks-IsQueue = record { linked = tt; head = refl; tail = refl; distinct = tt }

task_new-Inserted_example :
    (s' : Tasks) × (task_new no_tasks 0x1000 0x2000 0x3000 none ≡ some (ok 0x1000, s'))
    × IsQueue s' (0x1000 ∷ [])
    × (s'.current_task ≡ 0x1000)
task_new-Inserted_example =
    task_new-Inserted no_tasks 0x1000 0x2000 0x3000 none [] no_tasks-IsQueue tt (omega arith)
      (omega arith)

abbrev two_store : ℕ → Option Task
two_store p =
    if p == 0x1000
    then some (record {
      page_directory = 0x2000;
      registers = zero_registers;
      process = 0x3000;
      next = 0x5000;
      prev = 0;
    })
    else if p == 0x5000
    then some (record {
      page_directory = 0x6000;
      registers = zero_registers;
      process = 0x7000;
      next = 0;
      prev = 0x1000;
    })
    else none

abbrev two_tasks : Tasks
two_tasks = record {
  store = two_store;
  task_head = 0x1000;
  task_tail = 0x5000;
  current_task = 0x5000;
}

two_tasks-IsQueue : IsQueue two_tasks (0x1000 ∷ 0x5000 ∷ [])
two_tasks-IsQueue = record {
  linked = (
    record {
      page_directory = 0x2000;
      registers = zero_registers;
      process = 0x3000;
      next = 0x5000;
      prev = 0;
    },
    refl,
    refl,
    refl,
    omega arith,
    (
      record {
        page_directory = 0x6000;
        registers = zero_registers;
        process = 0x7000;
        next = 0;
        prev = 0x1000;
      },
      refl,
      refl,
      refl,
      omega arith,
      tt,
    ),
  );
  head = refl;
  tail = refl;
  distinct = ((omega arith, tt), (tt, tt));
}

task_next_example :
    (k : ℕ) × (k ≤ 2) × (switches k two_tasks ≡ some (record two_tasks { current_task = 0x1000 }))
task_next_example =
    task_next-reaches two_tasks (0x1000 ∷ 0x5000 ∷ []) 1 0 two_tasks-IsQueue (omega arith)
      (omega arith) refl

task_free_twice_example :
    (s' : Tasks) × (task_free two_tasks 0x1000 ≡ some s')
    × (s'.task_head ≡ 0x5000)
    × (task_free s' 0x5000 ≡ none)
task_free_twice_example = task_free_twice two_tasks 0x1000 0x5000 [] two_tasks-IsQueue
