-- ===== src/Process/Slots.antt =====
-- The table of processes in src/task/process.c.
use alpha_os.Prelude.{
  ℕ, ◌+◌, ◌==◌, leb, if◌then◌else◌, Option, none, some, List, [], ◌∷◌, get_or, set, Result, ok, err,
  eistkn, ℤ, pos, negsuc,
}

-- ALPHAOS_MAX_PROCESSES
abbrev pub max_processes : ℕ
max_processes = 12

-- `processes`, of 12 pointers, and `current_process`
pub record Processes : Type 0 where
  pub processes : List ℕ
  pub current_process : ℕ

unfoldable pub process_current : Processes → ℕ
process_current s = s.current_process

unfoldable pub process_get : Processes → ℤ → ℕ
process_get s (negsuc n) = 0
process_get s (pos process_id) =
    if leb max_processes process_id then 0 else get_or s.processes process_id 0

unfoldable pub process_switch : Processes → ℕ → Processes
process_switch s process = record s { current_process = process }

-- The first pointer that is not NULL.
unfoldable pub any_loop : List ℕ → Option ℕ
any_loop [] = none
any_loop (p ∷ processes) = if p == 0 then any_loop processes else some p

-- `none` is the panic.
unfoldable pub process_switch_to_any : Processes → Option Processes
unfolding any_loop
process_switch_to_any s = elim (any_loop s.processes) [
  | none ↦ none
  | some p ↦ some (record s { current_process = p })
]

-- process_unlik, with the process's id.
unfoldable pub process_unlink : Processes → ℕ → ℕ → Option Processes
unfolding process_switch_to_any
process_unlink s process id =
    let s' : Processes = record s { processes = set s.processes id 0 } in
    if s'.current_process == process then process_switch_to_any s' else some s'

unfoldable pub free_slot_loop : List ℕ → ℕ → Result ℕ
free_slot_loop [] i = err eistkn
free_slot_loop (p ∷ processes) i = if p == 0 then ok i else free_slot_loop processes (i + 1)

unfoldable pub process_get_free_slot : Processes → Result ℕ
unfolding free_slot_loop
process_get_free_slot s = free_slot_loop s.processes 0

-- The end of process_load_for_slot: the slot takes the process that is loaded.
unfoldable pub take_slot : Processes → ℕ → ℕ → Processes
take_slot s process_slot process = record s { processes = set s.processes process_slot process }
