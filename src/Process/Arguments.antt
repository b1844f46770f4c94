-- ===== src/Process/Arguments.antt =====
-- The arguments of a process in src/task/process.c. The chain of `struct command_argument` is the list of
-- the texts in its nodes.
use alpha_os.Prelude.{
  ℕ, ◌+◌, ◌*◌, ◌/◌, ◌%◌, ◌^◌, ◌==◌, if◌then◌else◌, Option, some, List, [], ◌∷◌, ◌++◌, take, Result,
  ok, err, eio, enomem, Ram, offset, ◌>>=◌,
}
use alpha_os.Memory.Paging.{Chunk}
use alpha_os.Elf.Loader.{write_bytes}
use alpha_os.Process.{Process, Memory}
use alpha_os.Process.Allocation.{process_malloc}

-- The argc and argv that are written through the two pointers.
unfoldable pub process_get_arguments : Process → ℕ × ℕ
process_get_arguments process = (process.arguments.argc, process.arguments.argv)

unfoldable pub process_count_command_arguments : List (List ℕ) → ℕ
process_count_command_arguments [] = 0
process_count_command_arguments (a ∷ current) = process_count_command_arguments current + 1

unfoldable pub in_memory : Memory → (Ram → Ram) → Memory
in_memory m f = record m { kernel = record m.kernel { ram = f m.kernel.ram } }

-- The bytes that strncpy copies into the 512 of an argument.
unfoldable pub argument_bytes : List ℕ → List ℕ
argument_bytes text = take 511 text ++ 0 ∷ []

-- A 32-bit word, the low byte first.
unfoldable pub pointer_bytes : ℕ → List ℕ
pointer_bytes p = p ∷ p / 2 ^ 8 ∷ p / 2 ^ 16 ∷ p / 2 ^ 24 ∷ []

-- The loop over the arguments from the i-th on.
unfoldable pub inject_loop :
    Memory → Chunk → Process → ℕ → ℕ → List (List ℕ) → Option (Result ℕ × Process × Memory)
unfolding process_malloc in_memory argument_bytes pointer_bytes write_bytes
inject_loop m chunk process argv i [] = some (ok 0, process, m)
inject_loop m chunk process argv i (text ∷ current) = do
  (argument, process', m') ← process_malloc m chunk process 512
  if argument == 0
      then some (err enomem, process', m')
      else inject_loop
          (in_memory m' (λ ram.
            write_bytes (write_bytes ram argument (argument_bytes text)) (offset argv (4 * i))
              (pointer_bytes argument)))
          chunk process' argv (i + 1) current

-- An error leaves `arguments` as it was, and what was allocated before it.
unfoldable pub process_inject_arguments :
    Memory → Chunk → Process → List (List ℕ) → Option (Result ℕ × Process × Memory)
unfolding process_count_command_arguments process_malloc inject_loop
process_inject_arguments m chunk process root_argument =
    let argc = process_count_command_arguments root_argument in
    if argc == 0 then some (err eio, process, m) else do
      (argv, process1, m1) ← process_malloc m chunk process (4 * argc % 2 ^ 32)
      if argv == 0 then some (err enomem, process1, m1) else (do
        (res, process2, m2) ← inject_loop m1 chunk process1 argv 0 root_argument
        elim res [
          | err e ↦ some (err e, process2, m2)
          | ok n ↦
              some (ok n, record process2 { arguments = record { argc = argc; argv = argv } }, m2)
        ])
