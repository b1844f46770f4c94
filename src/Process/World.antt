-- ===== src/Process/World.antt =====
-- What the functions of src/task/process.c that work on several parts see of the kernel.
use alpha_os.Prelude.{ℕ, Option, ◌==◌, if◌then◌else◌}
use alpha_os.Memory.Paging.{Chunk}
use alpha_os.Fs.{Files}
use alpha_os.Task.{Tasks}
use alpha_os.Process.{Process, Memory}
use alpha_os.Process.Slots.{Processes}

-- `process_at` and `chunk_at` give the structures `process` and `paging_4gb_chunk` at an address.
pub record World {ℓ} (S : Type ℓ) : Type ℓ where
  pub memory : Memory
  pub files : Files S
  pub tasks : Tasks
  pub table : Processes
  pub process_at : ℕ → Option Process
  pub chunk_at : ℕ → Option Chunk

unfoldable pub at_address {ℓ} : {A : Type ℓ} → (ℕ → Option A) → ℕ → Option A → ℕ → Option A
at_address f p v q = if q == p then v else f q
