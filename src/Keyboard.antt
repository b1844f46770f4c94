-- ===== src/Keyboard.antt =====
-- src/keyboard/keyboard.c: the key buffer of each process, a ring with counters that wrap at 2^32,
-- and the list of keyboards.
pub mod Queue
pub mod Classic
mod Tests
use alpha_os.Prelude.{
  ℕ, ◌+◌, ◌-◌, ◌%◌, ◌^◌, Option, none, some, List, [], ◌∷◌, ◌++◌, ◌==◌, if◌then◌else◌, get_or, set,
  Result, ok, err, einvarg,
}

-- ALPHAOS_KEYBOARD_BUFFER_SIZE
abbrev pub buffer_size : ℕ
buffer_size = 1024

-- struct keyboard_buffer
pub record KeyBuffer : Type 0 where
  pub buffer : List ℕ
  pub head : ℕ
  pub tail : ℕ

-- What the functions see of the processes: the current process, the process of the current task,
-- and the buffer of each process.
pub record Keys : Type 0 where
  pub process_current : Option ℕ
  pub task_process : Option ℕ
  pub buffers : ℕ → KeyBuffer

unfoldable pub update : (ℕ → KeyBuffer) → ℕ → KeyBuffer → ℕ → KeyBuffer
update buffers p b q = if q == p then b else buffers q

unfoldable pub keyboard_get_tail_index : KeyBuffer → ℕ
keyboard_get_tail_index b = b.tail % buffer_size

unfoldable pub keyboard_backspace : KeyBuffer → KeyBuffer
unfolding keyboard_get_tail_index
keyboard_backspace b =
    let b' : KeyBuffer = record b { tail = (b.tail + 2 ^ 32 - 1) % 2 ^ 32 } in
    record b' { buffer = set b'.buffer (keyboard_get_tail_index b') 0 }

-- keyboard_push, on the buffer that it has found.
unfoldable pub push_buffer : KeyBuffer → ℕ → KeyBuffer
unfolding keyboard_get_tail_index
push_buffer b c = if c == 0 then b else record b {
  buffer = set b.buffer (keyboard_get_tail_index b) c;
  tail = (b.tail + 1) % 2 ^ 32;
}

unfoldable pub keyboard_push : Keys → ℕ → Keys
unfolding push_buffer update
keyboard_push k c = elim k.process_current [
  | none ↦ k
  | some p ↦ record k { buffers = update k.buffers p (push_buffer (k.buffers p) c) }
]

-- keyboard_pop, on the buffer that it has found.
unfoldable pub pop_buffer : KeyBuffer → ℕ × KeyBuffer
pop_buffer b =
    let i = b.head % buffer_size in
    let c = get_or b.buffer i 0 in
    if c == 0
    then (0, b)
    else (c, record b { buffer = set b.buffer i 0; head = (b.head + 1) % 2 ^ 32 })

-- A push goes to the current process, a pop takes from the process of the current task.
unfoldable pub keyboard_pop : Keys → ℕ × Keys
unfolding pop_buffer update
keyboard_pop k = elim k.task_process [
  | none ↦ (0, k)
  | some p ↦
      let (c, b) = pop_buffer (k.buffers p) in (c, record k { buffers = update k.buffers p b })
]

-- A keyboard driver: what its `init` returns, and `none` where it is NULL.
pub record Driver : Type 0 where
  pub init : Option (Result ℕ)
  pub capslock_state : ℕ

-- The chain from keyboard_list_head to keyboard_list_last is a list.
unfoldable pub keyboard_insert : List Driver → Driver → Result ℕ × List Driver
keyboard_insert keyboards keyboard = elim keyboard.init [
  | none ↦ (err einvarg, keyboards)
  | some res ↦ (res, keyboards ++ keyboard ∷ [])
]

unfoldable pub keyboard_set_capslock : Driver → ℕ → Driver
keyboard_set_capslock keyboard state = record keyboard { capslock_state = state }

unfoldable pub keyboard_get_capslock : Driver → ℕ
keyboard_get_capslock keyboard = keyboard.capslock_state
