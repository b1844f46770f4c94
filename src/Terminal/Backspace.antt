-- ===== src/Terminal/Backspace.antt =====
-- What the backspace does to the cursor.
use alpha_os.Prelude.{ℕ, ◌+◌, ◌-◌, ◌%◌, ◌^◌, ◌≤◌, ◌<◌, ◌≡◌, arith}
use alpha_os.Terminal.{terminal_backspace, terminal_putchar, write_cell}

-- Within a row the cursor goes back one cell.
backspace_inside :
    (video : ℕ → ℕ) (row col : ℕ)
    → 1 ≤ col
    → col < 80
    → terminal_backspace (record { video_memory = video; terminal_row = row; terminal_col = col })
      ≡ terminal_putchar
          (record { video_memory = video; terminal_row = row; terminal_col = col - 1 })
          (col - 1)
          row
          32
          15
unfolding terminal_backspace write_cell terminal_putchar
backspace_inside video row col h h' = let e : col - 1 + 1 ≡ col = omega arith in ground (arith, e)

-- At the start of a later row the blank ends the row above, and the cursor wraps to column 65535.
backspace_start :
    (video : ℕ → ℕ) (row : ℕ)
    → 1 ≤ row
    → row < 2 ^ 16
    → terminal_backspace (record { video_memory = video; terminal_row = row; terminal_col = 0 })
      ≡ terminal_putchar
          (record { video_memory = video; terminal_row = row; terminal_col = 65535 })
          79
          (row - 1)
          32
          15
unfolding terminal_backspace write_cell terminal_putchar
backspace_start video row h h' =
    let e : (row - 1 + 1) % 2 ^ 16 ≡ row = omega arith in ground (arith, e)

-- A backspace within a row clears the cell before the cursor and goes back to it. At the start of a
-- later row it clears the last cell of the row above, stays in its row, and the column wraps to 65535.
pub terminal_backspace_lem :
    (video : ℕ → ℕ) (row col : ℕ)
    → 1 ≤ row
    → row < 2 ^ 16
    → 1 ≤ col
    → col < 80
    → (terminal_backspace (record { video_memory = video; terminal_row = row; terminal_col = col })
        ≡ terminal_putchar
            (record { video_memory = video; terminal_row = row; terminal_col = col - 1 })
            (col - 1)
            row
            32
            15)
      × (terminal_backspace (record { video_memory = video; terminal_row = row; terminal_col = 0 })
          ≡ terminal_putchar
              (record { video_memory = video; terminal_row = row; terminal_col = 65535 })
              79
              (row - 1)
              32
              15)
terminal_backspace_lem video row col h1 h2 h3 h4 =
    (backspace_inside video row col h3 h4, backspace_start video row h1 h2)
