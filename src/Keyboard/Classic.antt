-- ===== src/Keyboard/Classic.antt =====
-- src/keyboard/classic.c: the PS/2 keyboard. A scan code read from the port goes through the table of
-- scan set one into the buffer of the current process.
use Prim.Native.Char.{code}
use Prim.Native.String.{String}
use alpha_os.Prelude.{
  ℕ, ◌+◌, ◌*◌, ◌-◌, ◌^◌, ◌<◌, ◌≤◌, ◌≡◌, ◌≢◌, refl, Bool, true, false, not, ◌&&◌, some, List, [],
  ◌∷◌, ◌++◌, ◌==◌, leb, if◌then◌else◌, get_or, length, arith, ap, sym, subst, ◌∙◌, bit_and,
  bit_and-shifted,
}
use alpha_os.Keyboard.{
  Driver, Keys, keyboard_set_capslock, keyboard_get_capslock, keyboard_push, push_buffer, update,
}
use alpha_os.Keyboard.Queue.{Holds, push_buffer_refines}
use native.Mathlib.Decide.{ℕ_discrete}
use alpha_os.Text.Cstring.{tolower}

abbrev codes : String → List ℕ
codes String.[] = []
codes (String.◌∷◌ c s) = code c ∷ codes s

-- Scan set one; 0 for a key that gives no character.
abbrev pub keyboard_scan_set_one : List ℕ
keyboard_scan_set_one =
    (0x00 ∷ 0x1B ∷ [])
    ++ codes "1234567890-="
    ++ (0x08 ∷ 9 ∷ [])
    ++ codes "QWERTYUIOP[]"
    ++ (0x0D ∷ 0x00 ∷ [])
    ++ codes "ASDFGHJKL;'`"
    ++ (0x00 ∷ 92 ∷ [])
    ++ codes "ZXCVBNM,./"
    ++ (0x00 ∷ [])
    ++ codes "*"
    ++ (0x00 ∷ 0x20 ∷ 0x00 ∷ 0x00 ∷ 0x00 ∷ 0x00 ∷ 0x00 ∷ 0x00 ∷ 0x00 ∷ 0x00 ∷ 0x00 ∷ 0x00 ∷ 0x00
        ∷ [])
    ++ codes "789-456+1230."

-- The driver, the buffers it writes to, and whether the kernel's page directory is loaded.
pub record State : Type 0 where
  pub classic_keyboard : Driver
  pub keys : Keys
  pub kernel_paged : Bool

unfoldable pub classic_keyboard_scancode_to_char : Driver → ℕ → ℕ
classic_keyboard_scancode_to_char keyboard scancode =
    if leb (length keyboard_scan_set_one) scancode
    then 0
    else (let c = get_or keyboard_scan_set_one scancode 0 in
        if (keyboard_get_capslock keyboard == 0) && (leb b'A' c && leb c b'Z') then c + 32 else c)

-- The handler on the scan code that the first read of the port gives; the second read is dropped.
unfoldable pub classic_keyboard_handle_interrupt : State → ℕ → State
classic_keyboard_handle_interrupt s scancode =
    let s1 : State = record s { kernel_paged = true } in
    if not (bit_and scancode 128 == 0)
    then s1
    else (let k =
          if scancode == 58
          then keyboard_set_capslock s1.classic_keyboard
              (if keyboard_get_capslock s1.classic_keyboard == 1 then 0 else 1)
          else s1.classic_keyboard in
        let c = classic_keyboard_scancode_to_char k scancode in
        record {
          classic_keyboard = k;
          keys = if not (c == 0) then keyboard_push s1.keys c else s1.keys;
          kernel_paged = false;
        })

below_127 : (s : ℕ) → s < 128 → bit_and s 128 ≡ 0
below_127 s h =
    let e : s ≡ 0 * 2 ^ 7 + s = omega arith in ap (λ x. bit_and x 128) e ∙ bit_and-shifted 7 0 s 1 h

above_127 : (s : ℕ) → 128 ≤ s → s < 256 → bit_and s 128 ≡ 128
above_127 s h h' =
    let e : s ≡ 1 * 2 ^ 7 + (s - 128) = omega arith in
    ap (λ x. bit_and x 128) e ∙ bit_and-shifted 7 1 (s - 128) 1 (omega arith)

-- A scan code from 128 on, the release of a key, changes neither the buffers nor caps lock, and
-- leaves the kernel's page directory loaded.
pub key_release_lem :
    (s : State) (scancode : ℕ)
    → 128 ≤ scancode
    → scancode < 256
    → classic_keyboard_handle_interrupt s scancode ≡ record s { kernel_paged = true }
unfolding classic_keyboard_handle_interrupt
key_release_lem s scancode h h' = rw (above_127 scancode h h') refl

-- A key that is pressed and is not caps lock pushes the character of its scan code, if there is one.
key_press_lem :
    (s : State) (scancode : ℕ)
    → scancode < 128
    → scancode ≢ 58
    → (classic_keyboard_handle_interrupt s scancode).keys ≡ (
        let c = classic_keyboard_scancode_to_char s.classic_keyboard scancode in
        if not (c == 0) then keyboard_push s.keys c else s.keys)
unfolding classic_keyboard_handle_interrupt
key_press_lem s scancode h n =
    let e : (scancode == 58) ≡ false = ground arith in rw (below_127 scancode h, e) refl

push_current :
    (k : Keys) (p c : ℕ)
    → k.process_current ≡ some p
    → (keyboard_push k c).buffers p ≡ push_buffer (k.buffers p) c
unfolding keyboard_push update
push_current k p c h = rw h (ground arith)

-- A key that is pressed while fewer than 1024 wait joins the queue of the current process as the
-- character of its scan code.
pub key_press_refines :
    (s : State) (scancode p : ℕ) (q : List ℕ)
    → scancode < 128
    → s.keys.process_current ≡ some p
    → scancode ≢ 58
    → classic_keyboard_scancode_to_char s.classic_keyboard scancode ≢ 0
    → Holds (s.keys.buffers p) q
    → length q < 1024
    → Holds
        ((classic_keyboard_handle_interrupt s scancode).keys.buffers p)
        (q ++ classic_keyboard_scancode_to_char s.classic_keyboard scancode ∷ [])
key_press_refines s scancode p q h current other n v room =
    let c = classic_keyboard_scancode_to_char s.classic_keyboard scancode in
    let e : (if not (c == 0) then keyboard_push s.keys c else s.keys) ≡ keyboard_push s.keys c =
      ground arith in
    subst (λ k. Holds (k.buffers p) (q ++ c ∷ [])) (sym (key_press_lem s scancode h other ∙ e))
      (subst (λ b. Holds b (q ++ c ∷ [])) (sym (push_current s.keys p c current))
        (push_buffer_refines (s.keys.buffers p) q c v n room))

-- Pressing caps lock turns its state over, pushes nothing, and a second press undoes it.
pub caps_lock_lem :
    (s : State)
    → s.classic_keyboard.capslock_state ≤ 1
    → ((classic_keyboard_handle_interrupt s 58).keys ≡ s.keys)
      × ((classic_keyboard_handle_interrupt s 58).classic_keyboard.capslock_state
          ≡ 1 - s.classic_keyboard.capslock_state)
      × (classic_keyboard_handle_interrupt (classic_keyboard_handle_interrupt s 58) 58
          ≡ record s { kernel_paged = false })
unfolding classic_keyboard_handle_interrupt keyboard_set_capslock keyboard_get_capslock
    classic_keyboard_scancode_to_char
caps_lock_lem s h = elim (ℕ_discrete s.classic_keyboard.capslock_state 0) [
  | yes e ↦ rw e (refl, refl, refl)
  | no ne ↦ let e : s.classic_keyboard.capslock_state ≡ 1 = omega arith in rw e (refl, refl, refl)
]

case_if :
    (b : Bool) (c : ℕ)
    → (if b then 0 else (if leb b'A' c && leb c b'Z' then c + 32 else c))
      ≡ tolower (if b then 0 else c)
unfolding tolower
case_if true c = refl
case_if false c = refl

-- With caps lock off a key gives what it gives with caps lock on, in lower case.
pub scancode_to_char-tolower :
    (keyboard : Driver) (scancode : ℕ)
    → classic_keyboard_scancode_to_char (keyboard_set_capslock keyboard 0) scancode
      ≡ tolower (classic_keyboard_scancode_to_char (keyboard_set_capslock keyboard 1) scancode)
unfolding classic_keyboard_scancode_to_char keyboard_set_capslock keyboard_get_capslock tolower
scancode_to_char-tolower keyboard scancode =
    case_if (leb (length keyboard_scan_set_one) scancode) (get_or keyboard_scan_set_one scancode 0)
