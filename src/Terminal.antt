-- ===== src/Terminal.antt =====
-- The text screen of src/kernel.c: `video_memory`, as a function from the index of a word, and the
-- cursor in two 16-bit counters.
pub mod Backspace
use alpha_os.Prelude.{
  ℕ, zero, suc, ◌+◌, ◌*◌, ◌-◌, ◌%◌, ◌^◌, ◌==◌, ◌&&◌, ltb, leb, if◌then◌else◌, List, [], ◌∷◌, bit_or,
}

abbrev pub vga_width : ℕ
vga_width = 80

pub record Terminal : Type 0 where
  pub video_memory : ℕ → ℕ
  pub terminal_row : ℕ
  pub terminal_col : ℕ

-- `char` is signed, and the result is cut to 16 bits.
unfoldable pub terminal_make_char : ℕ → ℕ → ℕ
terminal_make_char c color = bit_or (color * 2 ^ 8) (if ltb c 128 then c else c + 0xFF00) % 2 ^ 16

unfoldable pub terminal_putchar : Terminal → ℕ → ℕ → ℕ → ℕ → Terminal
terminal_putchar t x y c color = record t {
  video_memory =
      λ i. if i == y * vga_width + x then terminal_make_char c color else t.video_memory i;
}

-- terminal_writechar behind its two control characters.
unfoldable pub write_cell : Terminal → ℕ → ℕ → Terminal
unfolding terminal_putchar
write_cell t c color =
    let t1 = terminal_putchar t t.terminal_col t.terminal_row c color in
    let col = (t1.terminal_col + 1) % 2 ^ 16 in
    if leb vga_width col
    then record t1 { terminal_col = 0; terminal_row = (t1.terminal_row + 1) % 2 ^ 16 }
    else record t1 { terminal_col = col }

-- The call of terminal_writechar writes a blank, which is no control character.
unfoldable pub terminal_backspace : Terminal → Terminal
unfolding write_cell
terminal_backspace t =
    if t.terminal_row == 0 && t.terminal_col == 0
    then t
    else (let t1 =
          if t.terminal_col == 0
          then record t { terminal_row = t.terminal_row - 1; terminal_col = vga_width }
          else t in
        let t2 = write_cell (record t1 { terminal_col = t1.terminal_col - 1 }) 32 15 in
        record t2 { terminal_col = (t2.terminal_col + 2 ^ 16 - 1) % 2 ^ 16 })

unfoldable pub terminal_writechar : Terminal → ℕ → ℕ → Terminal
unfolding terminal_backspace write_cell
terminal_writechar t c color =
    if c == 10
    then record t { terminal_col = 0; terminal_row = (t.terminal_row + 1) % 2 ^ 16 }
    else if c == 8
    then terminal_backspace t
    else write_cell t c color

-- The string as the bytes before its NUL.
unfoldable pub print : Terminal → List ℕ → Terminal
unfolding terminal_writechar
print t [] = t
print t (c ∷ string) = print (terminal_writechar t c 15) string

abbrev vga_height : ℕ
vga_height = 25

-- The inner loop of terminal_init, with `left` columns to go.
unfoldable pub init_row : ℕ → ℕ → ℕ → Terminal → Terminal
unfolding terminal_putchar
init_row zero x y t = t
init_row (suc left) x y t = init_row left (x + 1) y (terminal_putchar t x y 32 0)

unfoldable pub init_rows : ℕ → ℕ → Terminal → Terminal
unfolding init_row
init_rows zero y t = t
init_rows (suc left) y t = init_rows left (y + 1) (init_row vga_width 0 y t)

unfoldable pub terminal_init : Terminal → Terminal
unfolding init_rows
terminal_init t = init_rows vga_height 0 (record t { terminal_row = 0; terminal_col = 0 })
