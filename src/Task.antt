-- ===== src/Task.antt =====
-- src/task/task.c: the tasks as a doubly linked list in memory, and the switch from one to the next.
-- `none` is a panic, or an access through NULL or to a task that is freed. What kzalloc and
-- paging_new_4gb return are arguments, 0 for NULL; the loading of a page directory and of registers is
-- left out.
pub mod Links
pub mod Insert
pub mod Round
pub mod Stale
mod Tests
use alpha_os.Prelude.{
  ℕ, zero, suc, ◌+◌, ◌-◌, Option, none, some, ◌==◌, not, if◌then◌else◌, Result, ok, err, enomem,
  eio, ◌>>=◌, ◌>>◌,
}

-- struct registers
pub record Registers : Type 0 where
  pub edi : ℕ
  pub esi : ℕ
  pub ebp : ℕ
  pub ebx : ℕ
  pub edx : ℕ
  pub ecx : ℕ
  pub eax : ℕ
  pub ip : ℕ
  pub cs : ℕ
  pub flags : ℕ
  pub esp : ℕ
  pub ss : ℕ

-- struct task
pub record Task : Type 0 where
  pub page_directory : ℕ
  pub registers : Registers
  pub process : ℕ
  pub next : ℕ
  pub prev : ℕ

-- The memory of the tasks, with task_head, task_tail and current_task.
pub record Tasks : Type 0 where
  pub store : ℕ → Option Task
  pub task_head : ℕ
  pub task_tail : ℕ
  pub current_task : ℕ

unfoldable pub put : (ℕ → Option Task) → ℕ → Option Task → ℕ → Option Task
put store p t q = if q == p then t else store q

unfoldable pub set_next : Tasks → ℕ → ℕ → Option Tasks
unfolding put
set_next s p q = do
  t ← s.store p
  some (record s { store = put s.store p (some (record t { next = q })) })

unfoldable pub set_prev : Tasks → ℕ → ℕ → Option Tasks
unfolding put
set_prev s p q = do
  t ← s.store p
  some (record s { store = put s.store p (some (record t { prev = q })) })

abbrev zero_registers : Registers
zero_registers = record {
  edi = 0;
  esi = 0;
  ebp = 0;
  ebx = 0;
  edx = 0;
  ecx = 0;
  eax = 0;
  ip = 0;
  cs = 0;
  flags = 0;
  esp = 0;
  ss = 0;
}

-- `elf_entry` is the entry point, where the process is an ELF file.
unfoldable pub task_init : ℕ → ℕ → Option ℕ → Result Task
task_init directory process elf_entry =
    if directory == 0
    then err eio
    else ok (record {
      page_directory = directory;
      registers = record zero_registers {
        ip = elim elf_entry [ none ↦ 0x400000 | some entry ↦ entry ];
        ss = 0x23;
        cs = 0x1B;
        esp = 0x3FF000;
      };
      process = process;
      next = 0;
      prev = 0;
    })

-- Appends a task, at `task`, to the list.
unfoldable pub task_link : Tasks → ℕ → Option Tasks
unfolding set_next set_prev
task_link s task =
    if s.task_head == 0
    then some (record s { task_head = task; task_tail = task; current_task = task })
    else do
      s1 ← set_next s s.task_tail task
      s2 ← set_prev s1 task s.task_tail
      some (record s2 { task_tail = task })

-- When task_init fails, task_free frees page tables through NULL.
unfoldable pub task_new : Tasks → ℕ → ℕ → ℕ → Option ℕ → Option (Result ℕ × Tasks)
unfolding task_init task_link put
task_new s task directory process elf_entry =
    if task == 0 then some (err enomem, s) else elim (task_init directory process elf_entry) [
      | err _ ↦ none
      | ok t ↦ do
        s' ← task_link (record s { store = put s.store task (some t) }) task
        some (ok task, s')
    ]

unfoldable pub task_get_next : Tasks → Option ℕ
task_get_next s = do t ← s.store s.current_task; some (if t.next == 0 then s.task_head else t.next)

-- The four tests of task_list_remove; the pointers of the task that is removed stay as they are.
unfoldable pub task_list_remove : Tasks → ℕ → Option Tasks
unfolding set_next task_get_next
task_list_remove s task = do
  t ← s.store task
  s1 ← if t.prev == 0 then some s else set_next s t.prev t.next
  let s2 = if task == s1.task_head then record s1 { task_head = t.next } else s1
  let s3 = if task == s2.task_tail then record s2 { task_tail = t.prev } else s2
  if task == s3.current_task
      then (do next ← task_get_next s3; some (record s3 { current_task = next }))
      else some s3

-- The page tables go back to the heap first.
unfoldable pub task_free : Tasks → ℕ → Option Tasks
unfolding task_list_remove put
task_free s task = do
  s' ← task_list_remove s task
  some (record s' { store = put s'.store task none })

unfoldable pub task_switch : Tasks → ℕ → Option Tasks
task_switch s task = do t ← s.store task; some (record s { current_task = task })

-- The task whose registers are then loaded is the current one.
unfoldable pub task_next : Tasks → Option Tasks
unfolding task_get_next task_switch
task_next s = do next ← task_get_next s; if next == 0 then none else task_switch s next

unfoldable pub task_run_first_ever_task : Tasks → Option Tasks
unfolding task_switch
task_run_first_ever_task s = if s.current_task == 0 then none else task_switch s s.task_head

-- struct interrupt_frame
pub record InterruptFrame : Type 0 where
  pub registers : Registers
  pub reserved : ℕ

unfoldable pub task_save_state : Task → InterruptFrame → Task
task_save_state t frame = record t {
  registers = record t.registers {
    ip = frame.registers.ip;
    cs = frame.registers.cs;
    flags = frame.registers.flags;
    esp = frame.registers.esp;
    ss = frame.registers.ss;
    eax = frame.registers.eax;
    ebp = frame.registers.ebp;
    ebx = frame.registers.ebx;
    ecx = frame.registers.ecx;
    edi = frame.registers.edi;
    edx = frame.registers.edx;
    esi = frame.registers.esi;
  };
}

unfoldable pub task_current_save_state : Tasks → InterruptFrame → Option Tasks
unfolding task_save_state put
task_current_save_state s frame = if s.current_task == 0 then none else do
  t ← s.store s.current_task
  some (record s { store = put s.store s.current_task (some (task_save_state t frame)) })
