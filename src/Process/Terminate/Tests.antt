-- ===== src/Process/Terminate/Tests.antt =====
-- The end of a process that has allocated nothing.
use alpha_os.Prelude.{ℕ, ◌≡◌, refl, inr, none, replicate, zero, suc, arith}
use alpha_os.Process.{ProcessAllocation}
use alpha_os.Process.Samples.{small_kernel, chunk, task, world}
use alpha_os.Process.Load.{process_init}
use alpha_os.Process.Terminate.{process_terminate}
use alpha_os.Process.Terminate.Unused.{IsCleared, process_terminate-unused}

abbrev unused : ProcessAllocation
unused = record { ptr = 0; size = 0 }

cleared : (n : ℕ) → IsCleared (replicate n unused)
cleared zero = tt
cleared (suc n) = (inr refl, cleared n)

process_terminate-unused_example : process_terminate (world small_kernel) 0x3000 0 ≡ none
process_terminate-unused_example =
    process_terminate-unused (world small_kernel) 0x3000 0 5 (record process_init { task = 0x2000 })
      task chunk unused refl refl refl (omega arith) refl refl (cleared 1024) (omega arith)
      (omega arith)
