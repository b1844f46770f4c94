-- ===== src/Start/Tests.antt =====
-- The interrupts of a machine that stops at an exception.
use alpha_os.Prelude.{
  ℕ, zero, suc, ◌+◌, ◌*◌, List, ◌∷◌, length, refl, ap, get_elem?, arith, Option, none, some, [],
  replicate, if◌then◌else◌, ◌==◌, ◌≡◌,
}
use alpha_os.Idt.Gates.{gate_to}
use alpha_os.Idt.{IdtDesc, TaskOps, total_interrupts, interrupt_handler}
use alpha_os.Idt.Init.{init_descriptors, init_callbacks}
use alpha_os.Fat.Filesystem.{FatState}
use alpha_os.Process.Samples.{memory, task}
use alpha_os.Isr80h.Commands.{Machine}
use alpha_os.Start.{Running, keyboard_init}
use alpha_os.Start.Interrupts.{interrupt_handler-keyboard_init}

abbrev machine : Machine (Option FatState)
machine = record {
  world = record {
    memory = memory;
    files = record {
      filesystems = [];
      file_descriptors = [];
      disk_filesystem = none;
      state = none;
    };
    tasks = record {
      store = λ a. if a == 0x2000 then some task else none;
      task_head = 0x2000;
      task_tail = 0x2000;
      current_task = 0x2000;
    };
    table = record { processes = replicate 12 0; current_process = 0 };
    process_at = λ p. none;
    chunk_at = λ p. none;
  };
  terminal = record { video_memory = λ i. 0; terminal_row = 0; terminal_col = 0 };
  keys = record {
    process_current = none;
    task_process = none;
    buffers = λ p. record { buffer = []; head = 0; tail = 0 };
  };
}

abbrev same_page : TaskOps Running
same_page = record {
  kernel_page = λ s. s;
  task_page = λ s. s;
  task_current_save_state = λ frame s. s;
}

abbrev stops : Running → Running
stops s = none

abbrev goes_on : Running → Running
goes_on s = s

-- The stub of each interrupt at 16 times its number.
abbrev stubs_from : ℕ → ℕ → List ℕ
stubs_from zero i = []
stubs_from (suc left) i = i * 16 ∷ stubs_from left (i + 1)

length-stubs_from : (left i : ℕ) → length (stubs_from left i) ≡ left
length-stubs_from zero i = refl
length-stubs_from (suc left) i = ap suc (length-stubs_from left (i + 1))

abbrev stubs : List ℕ
stubs = stubs_from 512 0

-- A page fault.
interrupt_handler-keyboard_init_example :
    (descriptors : List IdtDesc) × (init_descriptors stubs 0x9000 0xA000 ≡ some descriptors)
    × (get_elem? descriptors 0 ≡ some (gate_to 0x9000))
    × (get_elem? descriptors 0x80 ≡ some (gate_to 0xA000))
    × (get_elem? descriptors 14 ≡ some (gate_to 224))
    × (interrupt_handler same_page
          (keyboard_init goes_on (init_callbacks stops goes_on (replicate total_interrupts none))).1
          14
          0
          (some machine)
        ≡ none)
interrupt_handler-keyboard_init_example =
    interrupt_handler-keyboard_init same_page stops goes_on goes_on stubs 0x9000 0xA000 14 0
      (some machine) (length-stubs_from 512 0) (omega arith) (λ e. omega (arith, e))
      (λ e. omega (arith, e))
