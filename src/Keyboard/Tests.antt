-- ===== src/Keyboard/Tests.antt =====
-- The keyboard on small inputs.
use alpha_os.Prelude.{
  ℕ, zero, suc, ◌+◌, ◌-◌, ◌^◌, ◌%◌, ◌≡◌, ◌≢◌, refl, true, false, some, ok, [], ◌∷◌, replicate,
  get_or, arith, ap, length-replicate, All,
}
use alpha_os.Keyboard.{KeyBuffer, Driver, keyboard_get_capslock}
use alpha_os.Keyboard.Queue.{Holds, pop_all, push_all, pop_all-push_all}
use alpha_os.Keyboard.Classic.{
  State, classic_keyboard_handle_interrupt, classic_keyboard_scancode_to_char, key_press_refines,
  key_release_lem,
}

-- An empty buffer whose counters are about to wrap.
abbrev empty : KeyBuffer
empty = record { buffer = replicate 1024 0; head = 2 ^ 32 - 1; tail = 2 ^ 32 - 1 }

abbrev full : KeyBuffer
full = record { buffer = replicate 1024 97; head = 0; tail = 1024 }

get_or-replicate : (n i : ℕ) → get_or (replicate {A = ℕ} n 0) i 0 ≡ 0
get_or-replicate zero i = refl
get_or-replicate (suc n) zero = refl
get_or-replicate (suc n) (suc i) = get_or-replicate n i

empty-Holds : Holds empty []
empty-Holds = record {
  sized = length-replicate {A = ℕ} 1024 0;
  count = omega arith;
  head_in = omega arith;
  tail_at = refl;
  cells = λ i h. get_or-replicate 1024 ((empty.head + i) % 1024);
  keys = tt;
}

keys-replicate : (n : ℕ) → All (λ (c : ℕ). c ≢ 0) (replicate n 97)
keys-replicate zero = tt
keys-replicate (suc n) = (omega arith, keys-replicate n)

full-Holds : Holds full (replicate 1024 97)
full-Holds = record {
  sized = length-replicate {A = ℕ} 1024 97;
  count = omega (arith, length-replicate {A = ℕ} 1024 97);
  head_in = omega arith;
  tail_at = omega (arith, length-replicate {A = ℕ} 1024 97);
  cells = λ i h.
      let e : (0 + i) % 1024 ≡ i = omega arith in
      ap (λ j. get_or (replicate {A = ℕ} 1024 97) j 0) e;
  keys = keys-replicate 1024;
}

abbrev driver : Driver
driver = record { init = some (ok 0); capslock_state = 0 }

abbrev idle : State
idle = record {
  classic_keyboard = driver;
  keys = record { process_current = some 3; task_process = some 3; buffers = λ p. empty };
  kernel_paged = false;
}

letter_a : classic_keyboard_scancode_to_char driver 0x1E ≡ b'a'
unfolding classic_keyboard_scancode_to_char keyboard_get_capslock
letter_a = refl

pop_all-push_all_example :
    ((pop_all 3 (push_all empty (104 ∷ 105 ∷ 33 ∷ []))).0 ≡ 104 ∷ 105 ∷ 33 ∷ [])
    × Holds (pop_all 3 (push_all empty (104 ∷ 105 ∷ 33 ∷ []))).1 []
pop_all-push_all_example =
    pop_all-push_all empty (104 ∷ 105 ∷ 33 ∷ []) empty-Holds (ground arith) (omega arith)

letter_a_ne : classic_keyboard_scancode_to_char driver 0x1E ≢ 0
letter_a_ne = omega (arith, letter_a)

key_press_refines_example :
    Holds
      ((classic_keyboard_handle_interrupt idle 0x1E).keys.buffers 3)
      (classic_keyboard_scancode_to_char driver 0x1E ∷ [])
key_press_refines_example =
    key_press_refines idle 0x1E 3 [] (omega arith) refl (omega arith) letter_a_ne empty-Holds
      (omega arith)

key_release_example :
    classic_keyboard_handle_interrupt idle 0x9E ≡ record idle { kernel_paged = true }
key_release_example = key_release_lem idle 0x9E (omega arith) (omega arith)
