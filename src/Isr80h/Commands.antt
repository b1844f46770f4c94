-- ===== src/Isr80h/Commands.antt =====
-- The commands in src/isr80h: io.c, memory.c, misc.c and process.c. `none` is a panic, an access through
-- NULL, or a write behind a local buffer. A command gives what it returns, as 32 bits; where it ends in
-- task_return, that is not seen.
pub mod Printed
pub mod Missing
use alpha_os.Prelude.{
  ℕ, zero, suc, ◌+◌, ◌-◌, ◌*◌, ◌%◌, ◌^◌, ◌==◌, ltb, leb, if◌then◌else◌, Option, none, some, List,
  [], ◌∷◌, ◌++◌, length, take, get_or, Result, ok, err, Errno, einvarg, status, ℤ, pos, negsuc, Ram,
  offset, ◌>>=◌,
}
use alpha_os.Memory.Paging.{Chunk}
use alpha_os.Memory.Paging.Store.{Words}
use alpha_os.Text.Cstring.{strlen}
use alpha_os.Text.Cstring.Compare.{text}
use alpha_os.Terminal.{Terminal, print, terminal_writechar}
use alpha_os.Keyboard.{Keys, keyboard_pop}
use alpha_os.Elf.{word}
use alpha_os.Elf.Loader.{write_bytes, is_negative}
use alpha_os.Task.{Task, task_switch, task_next}
use alpha_os.Process.{Process, Memory}
use alpha_os.Process.Allocation.{process_malloc, process_free}
use alpha_os.Process.Arguments.{
  in_memory, pointer_bytes, process_get_arguments, process_inject_arguments,
}
use alpha_os.Process.World.{World, at_address}
use alpha_os.Process.Load.{Answers, process_load_switch}
use alpha_os.Process.Terminate.{process_terminate}
use alpha_os.Isr80h.UserMemory.{
  copy_string_from_task, task_get_stack_item, task_virtual_address_to_physical,
}

-- What the commands work on.
pub record Machine {ℓ} (S : Type ℓ) : Type ℓ where
  pub world : World S
  pub terminal : Terminal
  pub keys : Keys

-- The processor's translation, the address of a local buffer, the answers of kzalloc in process_load,
-- the address of the process's `struct elf_file`, and fuel for strings and chains.
pub record Env : Type 0 where
  pub mmu : Words → ℕ → ℕ → ℕ
  pub buffer : ℕ
  pub answers : Answers
  pub elf_address : ℕ
  pub fuel : ℕ

-- `(void *)(value)` of an int, and ERROR of a code.
unfoldable pub to_pointer : ℤ → ℕ
to_pointer (pos n) = n % 2 ^ 32
to_pointer (negsuc n) = 2 ^ 32 - 1 - n

-- A string of the kernel's memory.
unfoldable pub string_at : ℕ → Ram → ℕ → Option (List ℕ)
string_at fuel ram p = do len ← strlen fuel ram p; some (text ram p len)

-- The chain of `struct command_argument` at an address: 512 bytes, and the next one's address.
unfoldable pub command_arguments : ℕ → Ram → ℕ → Option (List (List ℕ))
unfolding word
command_arguments zero ram p = none
command_arguments (suc fuel) ram p = if p == 0 then some [] else do
  rest ← command_arguments fuel ram (word ram (offset p 512))
  some (text ram p 512 ∷ rest)

-- "0:/" and a name in the 108 bytes of `path`, with NUL.
unfoldable pub path_of : List ℕ → Option (List ℕ)
path_of name = if ltb 108 (3 + length name + 1) then none else some (b'0' ∷ b':' ∷ b'/' ∷ name)

module _ {ℓ} {S : Type ℓ} where
  unfoldable pub chunk_of : World S → Task → Option Chunk
  chunk_of w t = w.chunk_at t.page_directory

  unfoldable pub task_current : World S → Option Task
  task_current w = w.tasks.store w.tasks.current_task

  -- An item on the stack of the current task.
  unfoldable pub stack_item : Env → World S → ℕ → Option ℕ
  unfolding task_current chunk_of task_get_stack_item
  stack_item env w index = do
    t ← task_current w
    chunk ← chunk_of w t
    some (task_get_stack_item env.mmu w.memory chunk t.registers.esp index)

  unfoldable pub isr80h_command0_sum : Env → Machine S → Option (ℕ × Machine S)
  unfolding stack_item
  isr80h_command0_sum env s = do
    v2 ← stack_item env s.world 1
    v1 ← stack_item env s.world 0
    some ((v1 + v2) % 2 ^ 32, s)

  -- The result of the copy is not looked at.
  unfoldable pub isr80h_command1_print : Env → Machine S → Option (ℕ × Machine S)
  unfolding stack_item task_current chunk_of copy_string_from_task string_at print
  isr80h_command1_print env s = do
    user_space_msg_buffer ← stack_item env s.world 0
    t ← task_current s.world
    chunk ← chunk_of s.world t
    (res, m) ←
        copy_string_from_task env.mmu s.world.memory chunk user_space_msg_buffer env.buffer 1024
    buf ← string_at env.fuel m.kernel.ram env.buffer
    some (0, record s { world = record s.world { memory = m }; terminal = print s.terminal buf })

  -- `char` is signed.
  unfoldable pub isr80h_command2_getkey : Env → Machine S → Option (ℕ × Machine S)
  unfolding keyboard_pop
  isr80h_command2_getkey env s =
      let (c, keys) = keyboard_pop s.keys in
      some (if ltb c 128 then c else c + 2 ^ 32 - 256, record s { keys = keys })

  unfoldable pub isr80h_command3_putchar : Env → Machine S → Option (ℕ × Machine S)
  unfolding stack_item terminal_writechar
  isr80h_command3_putchar env s = do
    item ← stack_item env s.world 0
    some (0, record s { terminal = terminal_writechar s.terminal (item % 256) 15 })

  -- The process of the current task, and its page directory.
  unfoldable pub current_process : World S → Option (ℕ × Process × Chunk)
  unfolding task_current chunk_of
  current_process w = do
    t ← task_current w
    process ← w.process_at t.process
    chunk ← chunk_of w t
    some (t.process, process, chunk)

  unfoldable pub with_process : Machine S → Memory → ℕ → Process → Machine S
  unfolding at_address
  with_process s m p process = record s {
    world = record s.world {
      memory = m;
      process_at = at_address s.world.process_at p (some process);
    };
  }

  unfoldable pub isr80h_command4_malloc : Env → Machine S → Option (ℕ × Machine S)
  unfolding stack_item current_process process_malloc with_process
  isr80h_command4_malloc env s = do
    size ← stack_item env s.world 0
    (p, process, chunk) ← current_process s.world
    (ptr, process', m) ← process_malloc s.world.memory chunk process size
    some (ptr, with_process s m p process')

  unfoldable pub isr80h_command5_free : Env → Machine S → Option (ℕ × Machine S)
  unfolding stack_item current_process process_free with_process
  isr80h_command5_free env s = do
    ptr ← stack_item env s.world 0
    (p, process, chunk) ← current_process s.world
    (process', m) ← process_free s.world.memory chunk process ptr
    some (0, with_process s m p process')

  -- The task of the process that is loaded becomes the current one.
  unfoldable pub switch_to : Machine S → World S → ℕ → Option (ℕ × Machine S)
  unfolding task_switch
  switch_to s w p = do
    process ← w.process_at p
    tasks ← task_switch w.tasks process.task
    some (0, record s { world = record w { tasks = tasks } })

  unfoldable pub isr80h_command6_process_load_start : Env → Machine S → Option (ℕ × Machine S)
  unfolding stack_item task_current chunk_of copy_string_from_task string_at path_of
      process_load_switch switch_to is_negative
  isr80h_command6_process_load_start env s = do
    filename_user_ptr ← stack_item env s.world 0
    t ← task_current s.world
    chunk ← chunk_of s.world t
    (res, m) ← copy_string_from_task env.mmu s.world.memory chunk filename_user_ptr env.buffer 108
    let w : World S = record s.world { memory = m }
    elim res [
      | err _ ↦ some (0, record s { world = w })
      | ok _ ↦ do
        filename ← string_at env.fuel m.kernel.ram env.buffer
        path ← path_of filename
        (res', p, w') ← process_load_switch w env.answers path
        if is_negative res' then some (0, record s { world = w' }) else switch_to s w' p
    ]

  -- From the loading on; strncpy takes at most 107 bytes of the name.
  unfoldable pub invoke : Env → Machine S → List (List ℕ) → List ℕ → Option (ℕ × Machine S)
  unfolding path_of process_load_switch switch_to is_negative to_pointer process_inject_arguments
      chunk_of at_address
  invoke env s arguments program_name = do
    path ← path_of (take 107 program_name)
    (res, p, w) ← process_load_switch s.world env.answers path
    if is_negative res then some (to_pointer res, record s { world = w }) else do
      process ← w.process_at p
      t ← w.tasks.store process.task
      chunk ← chunk_of w t
      (res', process', m) ← process_inject_arguments w.memory chunk process arguments
      let w' : World S = record w {
        memory = m;
        process_at = at_address w.process_at p (some process');
      }
      elim res' [
        | err e ↦ some (to_pointer (status e), record s { world = w' })
        | ok _ ↦ switch_to s w' p
      ]

  unfoldable pub isr80h_command7_invoke_system_command : Env → Machine S → Option (ℕ × Machine S)
  unfolding stack_item task_current chunk_of task_virtual_address_to_physical command_arguments
      invoke to_pointer
  isr80h_command7_invoke_system_command env s = do
    item ← stack_item env s.world 0
    t ← task_current s.world
    chunk ← chunk_of s.world t
    let args = task_virtual_address_to_physical s.world.memory chunk item
    if args == 0 then some (to_pointer (status einvarg), s) else do
      arguments ← command_arguments env.fuel s.world.memory.kernel.ram args
      let program_name = get_or arguments 0 []
      if length program_name == 0
          then some (to_pointer (status einvarg), s)
          else invoke env s arguments program_name

  unfoldable pub isr80h_command8_get_program_arguments : Env → Machine S → Option (ℕ × Machine S)
  unfolding stack_item current_process task_virtual_address_to_physical process_get_arguments
      in_memory write_bytes pointer_bytes
  isr80h_command8_get_program_arguments env s = do
    item ← stack_item env s.world 0
    (p, process, chunk) ← current_process s.world
    let arguments = task_virtual_address_to_physical s.world.memory chunk item
    let (argc, argv) = process_get_arguments process
    let m =
        in_memory s.world.memory
          (λ ram. write_bytes ram arguments (pointer_bytes argc ++ pointer_bytes argv))
    some (0, record s { world = record s.world { memory = m } })

  unfoldable pub isr80h_command9_exit : Env → Machine S → Option (ℕ × Machine S)
  unfolding task_current process_terminate task_next
  isr80h_command9_exit env s = do
    t ← task_current s.world
    w ← process_terminate s.world t.process env.elf_address
    tasks ← task_next w.tasks
    some (0, record s { world = record w { tasks = tasks } })
