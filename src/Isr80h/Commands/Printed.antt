-- ===== src/Isr80h/Commands/Printed.antt =====
-- What isr80h_command1_print of src/isr80h/io.c puts on the screen.
use alpha_os.Task.{Task}
use alpha_os.Process.{Memory}
