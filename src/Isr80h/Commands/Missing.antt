-- ===== src/Isr80h/Commands/Missing.antt =====
-- What isr80h_command7_invoke_system_command of src/isr80h/process.c does with an unknown program.
use alpha_os.Prelude.{
  ℕ, ◌+◌, ◌≤◌, ◌<◌, ◌≡◌, ◌≢◌, refl, ap, ◌∙◌, true, false, ltb, ◌==◌, none, some, List, [], ◌∷◌,
  zero, suc, length, length-take, take, ok, arith, ◌>>=◌,
}
use alpha_os.Memory.Paging.{Chunk}
use alpha_os.Memory.Kheap.{Kernel, kzalloc}
use alpha_os.Fs.{Files}
use alpha_os.Fs.Calls.{fopen}
use alpha_os.Task.{Task}
use alpha_os.Process.Slots.{max_processes, process_get_free_slot}
use alpha_os.Process.Load.{process_size, user_program_stack_size, process_load, process_load_switch}
use alpha_os.Process.Load.Missing.{process_load-missing}
use alpha_os.Isr80h.UserMemory.{task_virtual_address_to_physical}
use alpha_os.Isr80h.Commands.{
  Machine, Env, path_of, invoke, command_arguments, stack_item, task_current, chunk_of,
  isr80h_command7_invoke_system_command,
}

-- "0:/" and a name.
abbrev pub path_to : List ℕ → List ℕ
path_to name = b'0' ∷ b':' ∷ b'/' ∷ name

take-short : (xs : List ℕ) (n : ℕ) → length xs ≤ n → take n xs ≡ xs
take-short [] zero h = refl
take-short [] (suc n) h = refl
take-short (x ∷ xs) zero h = absurd (omega arith)
take-short (x ∷ xs) (suc n) h = ap (λ ys. x ∷ ys) (take-short xs n (omega arith))

path_of-short : (name : List ℕ) → length name ≤ 104 → path_of name ≡ some (path_to name)
unfolding path_of
path_of-short name h = let t : ltb 108 (3 + length name + 1) ≡ false = ground arith in rw t refl

path_of-long : (name : List ℕ) → 105 ≤ length name → path_of name ≡ none
unfolding path_of
path_of-long name h = let t : ltb 108 (3 + length name + 1) ≡ true = ground arith in rw t refl

module _ {S : Type 0} where
  invoke-unloaded :
      (env : Env) (s : Machine S) (arguments : List (List ℕ)) (name : List ℕ)
      → length name ≤ 104
      → process_load s.world env.answers (path_to name) ≡ none
      → invoke env s arguments name ≡ none
  unfolding invoke process_load_switch
  invoke-unloaded env s arguments name short e =
      rw (take-short name 107 (omega arith), path_of-short name short, ◌>>=◌, e) refl

  -- The command from its arguments on.
  command7-eq :
      (env : Env) (s : Machine S) (item args : ℕ) (t : Task) (chunk : Chunk) (name : List ℕ)
      (rest : List (List ℕ))
      → stack_item env s.world 0 ≡ some item
      → task_current s.world ≡ some t
      → chunk_of s.world t ≡ some chunk
      → task_virtual_address_to_physical s.world.memory chunk item ≡ args
      → args ≢ 0
      → command_arguments env.fuel s.world.memory.kernel.ram args ≡ some (name ∷ rest)
      → 0 < length name
      → isr80h_command7_invoke_system_command env s ≡ invoke env s (name ∷ rest) name
  unfolding isr80h_command7_invoke_system_command
  command7-eq env s item args t chunk name rest e running paged there nz chain named =
      let u : (args == 0) ≡ false = ground arith in
      let v : (length name == 0) ≡ false = ground arith in
      rw (e, ◌>>=◌, running, paged, there, u, chain, v) refl

  -- With a free slot in the table of 12, memory for a process and its stack, and a named program of up
  -- to 104 bytes that fopen does not open in the root of drive 0, the command that the shell runs makes
  -- the kernel read through NULL.
  pub isr80h_command7-missing :
      (env : Env) (s : Machine S) (item args : ℕ) (t : Task) (chunk : Chunk) (name : List ℕ)
      (rest : List (List ℕ)) (slot p stack : ℕ) (k k' : Kernel) (files : Files S)
      → stack_item env s.world 0 ≡ some item
      → task_current s.world ≡ some t
      → chunk_of s.world t ≡ some chunk
      → task_virtual_address_to_physical s.world.memory chunk item ≡ args
      → args ≢ 0
      → command_arguments env.fuel s.world.memory.kernel.ram args ≡ some (name ∷ rest)
      → 0 < length name
      → length name ≤ 104
      → length s.world.table.processes ≡ max_processes
      → process_get_free_slot s.world.table ≡ ok slot
      → kzalloc s.world.memory.kernel process_size ≡ some (p, k)
      → p ≢ 0
      → kzalloc k user_program_stack_size ≡ some (stack, k')
      → stack ≢ 0
      → fopen s.world.files (path_to name) (b'r' ∷ []) ≡ some (0, files)
      → isr80h_command7_invoke_system_command env s ≡ none
  isr80h_command7-missing env s item args t chunk name rest slot p stack k k' files e running paged
        there nz chain named short full found structure p_there given stack_there unopened =
      command7-eq env s item args t chunk name rest e running paged there nz chain named
      ∙ invoke-unloaded env s (name ∷ rest) name short (
          process_load-missing s.world env.answers (path_to name) slot p stack k k' files full found
            structure p_there given stack_there unopened)

  -- A name of 105 bytes or more is written behind the 108 bytes of `path`, whatever the file.
  pub isr80h_command7-long :
      (env : Env) (s : Machine S) (item args : ℕ) (t : Task) (chunk : Chunk) (name : List ℕ)
      (rest : List (List ℕ))
      → stack_item env s.world 0 ≡ some item
      → task_current s.world ≡ some t
      → chunk_of s.world t ≡ some chunk
      → task_virtual_address_to_physical s.world.memory chunk item ≡ args
      → args ≢ 0
      → command_arguments env.fuel s.world.memory.kernel.ram args ≡ some (name ∷ rest)
      → 105 ≤ length name
      → isr80h_command7_invoke_system_command env s ≡ none
  unfolding invoke
  isr80h_command7-long env s item args t chunk name rest e running paged there nz chain long =
      let cut : 105 ≤ length (take 107 name) = omega (arith, length-take 107 name) in
      command7-eq env s item args t chunk name rest e running paged there nz chain (omega arith)
      ∙ rw (path_of-long (take 107 name) cut, ◌>>=◌) refl
