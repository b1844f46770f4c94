-- ===== src/Start.antt =====
-- The start of src/kernel.c, with disk_search_and_init of src/disk/disk.c, keyboard_init of
-- src/keyboard/keyboard.c and classic_keyboard_init of src/keyboard/classic.c. `none` is a panic or an
-- access through NULL.
pub mod Interrupts
mod Tests
use alpha_os.Prelude.{
  ℕ, Option, none, some, List, [], ◌∷◌, replicate, if◌then◌else◌, ◌>>=◌, Result, ok, err, pos,
}
use alpha_os.Memory.Kheap.{kheap_init}
use alpha_os.Memory.Paging.{Chunk, paging_new_4gb}
use alpha_os.Terminal.{terminal_init}
use alpha_os.Gdt.{GdtStructured, gdt_structured_to_gdt}
use alpha_os.Keyboard.{Driver, keyboard_insert}
use alpha_os.Idt.{IdtDesc, total_interrupts, max_isr80h_commands, idt_register_interrupt_callback}
use alpha_os.Idt.Init.{init_descriptors, init_callbacks}
use alpha_os.Fs.{Files, fs_init, fs_resolve}
use alpha_os.Fat.Filesystem.{FatState, fat16_fs}
use alpha_os.Task.{task_run_first_ever_task}
use alpha_os.Process.World.{World, at_address}
use alpha_os.Process.Program.{is_pos}
use alpha_os.Process.Load.{process_load_switch}
use alpha_os.Process.Arguments.{process_inject_arguments}
use alpha_os.Isr80h.Commands.{Machine, Env}
use alpha_os.Isr80h.Register.{Handler, isr80h_register_commands}
use alpha_os.Isr80h.Exceptions.{idt_handle_exception, idt_clock}

-- The machine, while it has not stopped.
abbrev pub Running : Type 0
Running = Option (Machine (Option FatState))

abbrev pub Callbacks : Type 0
Callbacks = List (Option (Running → Running))

-- What the kernel is linked with and finds: the bytes of the heap's table, the addresses of the stubs of
-- assembly, of idt_zero and of the TSS, the handler of the keyboard, the answers of kzalloc for the
-- tables of the kernel, and fuel for the filesystem.
pub record Boot : Type 0 where
  pub env : Env
  pub entries : List ℕ
  pub interrupt_pointer_table : List ℕ
  pub idt_zero_address : ℕ
  pub isr80h_wrapper : ℕ
  pub tss : ℕ
  pub keyboard_interrupt : Running → Running
  pub alloc : ℕ → ℕ
  pub fuel : ℕ

-- What stands when the first task is run.
pub record Started : Type 0 where
  pub machine : Machine (Option FatState)
  pub gdt_real : List (List ℕ)
  pub idt_descriptors : List IdtDesc
  pub interrupt_callbacks : Callbacks
  pub isr80h_commands : List (Option (Handler Running))
  pub kernel_chunk : Chunk
  pub keyboards : List Driver

-- The TSS has 25 words.
abbrev gdt_structured : ℕ → List GdtStructured
gdt_structured tss =
    (record { base = 0x00; limit = 0x00; type = 0x00 })
    ∷ (record { base = 0x00; limit = 0xFFFFFFFF; type = 0x9A })
    ∷ (record { base = 0x00; limit = 0xFFFFFFFF; type = 0x92 })
    ∷ (record { base = 0x00; limit = 0xFFFFFFFF; type = 0xF8 })
    ∷ (record { base = 0x00; limit = 0xFFFFFFFF; type = 0xF2 })
    ∷ (record { base = tss; limit = 100; type = 0xE9 })
    ∷ []

-- The result of the registration is not looked at; the driver starts with caps lock off.
unfoldable pub classic_keyboard_init :
    (Running → Running) → Callbacks → Result ℕ × Driver × Callbacks
unfolding idt_register_interrupt_callback
classic_keyboard_init keyboard_interrupt callbacks = (
  ok 0,
  record { init = some (ok 0); capslock_state = 0 },
  (idt_register_interrupt_callback callbacks (pos 0x21) keyboard_interrupt).1,
)

unfoldable pub keyboard_init : (Running → Running) → Callbacks → List Driver × Callbacks
unfolding classic_keyboard_init keyboard_insert
keyboard_init keyboard_interrupt callbacks =
    let (res, driver, callbacks') = classic_keyboard_init keyboard_interrupt callbacks in
    ((keyboard_insert [] driver).1, callbacks')

-- The disk is the one whose state the files have.
unfoldable pub disk_search_and_init : Files (Option FatState) → Files (Option FatState)
unfolding fs_resolve
disk_search_and_init files =
    let (filesystem, files') = fs_resolve files in record files' { disk_filesystem = filesystem }

-- "0:/shell.elf"
abbrev shell_path : List ℕ
shell_path = b'0' ∷ b':' ∷ b'/' ∷ b's' ∷ b'h' ∷ b'e' ∷ b'l' ∷ b'l' ∷ b'.' ∷ b'e' ∷ b'l' ∷ b'f' ∷ []

-- "SHELL.ELF"
abbrev shell_argument : List ℕ
shell_argument = b'S' ∷ b'H' ∷ b'E' ∷ b'L' ∷ b'L' ∷ b'.' ∷ b'E' ∷ b'L' ∷ b'F' ∷ []

-- The loading of the shell, and its start; the result of process_inject_arguments is not looked at.
unfoldable pub run_shell : Env → World (Option FatState) → Option (World (Option FatState))
unfolding process_load_switch is_pos process_inject_arguments at_address task_run_first_ever_task
run_shell env w = do
  (res, p, w1) ← process_load_switch w env.answers shell_path
  if is_pos res 0
      then (do
        process ← w1.process_at p
        t ← w1.tasks.store process.task
        chunk ← w1.chunk_at t.page_directory
        (_, process', memory) ←
            process_inject_arguments w1.memory chunk process (shell_argument ∷ [])
        tasks ← task_run_first_ever_task w1.tasks
        some (record w1 {
          memory = memory;
          tasks = tasks;
          process_at = at_address w1.process_at p (some process');
        }))
      else none

-- The loading of the tables, of pages and of registers is left out.
unfoldable pub kernel_main : Boot → Machine (Option FatState) → Option Started
unfolding gdt_structured_to_gdt fs_init disk_search_and_init init_descriptors init_callbacks
    isr80h_register_commands keyboard_init run_shell terminal_init idt_handle_exception idt_clock
kernel_main b s = do
  gdt ← gdt_structured_to_gdt (replicate 6 (replicate 8 0)) (gdt_structured b.tss) 6
  let kernel = kheap_init s.world.memory.kernel b.entries
  files ← fs_init s.world.files (fat16_fs b.fuel)
  descriptors ← init_descriptors b.interrupt_pointer_table b.idt_zero_address b.isr80h_wrapper
  let callbacks =
      init_callbacks (λ m. m >>= idt_handle_exception b.env) (λ m. m >>= idt_clock)
        (replicate total_interrupts none)
  let (chunk, words) = paging_new_4gb b.alloc s.world.memory.words 0b111
  commands ← isr80h_register_commands b.env (replicate max_isr80h_commands none)
  let (keyboards, callbacks') = keyboard_init b.keyboard_interrupt callbacks
  world ← run_shell b.env (record s.world {
    memory = record { kernel = kernel; words = words };
    files = disk_search_and_init files;
  })
  some (record {
    machine = record s { world = world; terminal = terminal_init s.terminal };
    gdt_real = gdt;
    idt_descriptors = descriptors;
    interrupt_callbacks = callbacks';
    isr80h_commands = commands;
    kernel_chunk = chunk;
    keyboards = keyboards;
  })
