-- ===== src/Builtins/Processes.antt =====
-- builtin_commands.c: starting, listing and ending processes. `list_base` is the address of the
-- kernel's page directories.
use luma_osjang.Common.{
  ℕ, ◌+◌, ◌-◌, false, Option, none, some, List, [], ◌∷◌, ◌++◌, leb, ◌==◌, if◌then◌else◌, length,
  replicate,
}
use luma_osjang.Common.Bytes.{Bytes, put_name, c_string}
use luma_osjang.Common.Int.{pos, negsuc}
use luma_osjang.CommandLine.{string_to_int, write_value}
use luma_osjang.Process.{
  Kernel, LoadRequest, ProcessControlBlock, ProcessStatus, ready, running, blocked, get_active_pcb,
  process_create_user_process, process_destroy,
}
use luma_osjang.Interrupts.{Action}
use luma_osjang.Speaker.{speaker_play}
use luma_osjang.Builtins.{
  ShellState, codes, same_string, is_empty, next_row, report, print_line, request_for,
}

-- The fields of the request that the kernel reads.
unfoldable pub load_request : ShellState → List ℕ → ℕ → ℕ → LoadRequest
unfolding request_for
load_request s command buf buffer_size = record {
  buf = buf;
  name = (request_for s command false).name;
  parent_inode = s.current_inode;
  buffer_size = buffer_size;
}

-- The messages about a program from the disk, by the result; 4 is the code for a file that cannot be
-- read.
unfoldable pub exec_message : List ℕ → ℕ → List (List ℕ)
exec_message command result =
    if result == 0
    then codes "Process '" ∷ command ∷ codes "' started successfully" ∷ []
    else if result == 4
    then codes "exec: cannot read file '" ∷ command ∷ codes "'" ∷ []
    else if result == 1
    then codes "exec: maximum number of processes exceeded" ∷ []
    else if result == 2
    then codes "exec: invalid entry point for '" ∷ command ∷ codes "'" ∷ []
    else if result == 3
    then codes "exec: not enough memory to run '" ∷ command ∷ codes "'" ∷ []
    else codes "exec: unknown command '" ∷ command ∷ codes "'" ∷ []

-- `int_to_string` of a value that is not negative, into a new array; `stale` is what its digits'
-- array holds.
unfoldable pub decimal : Bytes → ℕ → List ℕ
unfolding write_value
decimal stale value = c_string (write_value stale (λ _. 0) value 0) 16 0

abbrev pub state_str : ProcessStatus → List ℕ
state_str ready = codes "READY"
state_str running = codes "RUNNING"
state_str blocked = codes "BLOCKED"

-- The pieces of a process's row: its name is cut to 8 characters and padded to them.
unfoldable pub process_row : Bytes → ProcessControlBlock → List (List ℕ)
unfolding decimal
process_row stale pcb =
    let name = c_string pcb.name 8 0 in
    decimal stale pcb.pid
    ∷ codes "  "
    ∷ name
    ∷ (replicate (8 - length name) (codes " ") ++ (codes " " ∷ state_str pcb.cur_state ∷ []))

-- The loop over the copies of the active blocks.
unfoldable pub process_rows : Bytes → List ProcessControlBlock → ShellState → ShellState
unfolding process_row report
process_rows stale [] s = s
process_rows stale (pcb ∷ pcbs) s =
    let s1 = report (process_row stale pcb) s in
    let rest = process_rows stale pcbs s1 in
    if pcb.active
    then if leb 22 s1.current_output_row then report (codes "-- More --" ∷ []) s1 else rest
    else process_rows stale pcbs s

unfoldable pub handle_ps : Bytes → Kernel → ShellState → ShellState
unfolding process_rows
handle_ps stale kernel s =
    let pcb_list = get_active_pcb kernel in
    let titled =
      report (codes "==================" ∷ []) (report (codes "Process Information:" ∷ []) s) in
    let headed =
      report (codes "---  -------- -----" ∷ [])
        (report (codes "PID  NAME     STATE" ∷ []) titled) in
    if length pcb_list == 0
    then report (codes "No active processes" ∷ []) titled
    else report (codes "Total active processes: " ∷ decimal stale (length pcb_list) ∷ [])
        (next_row (process_rows stale pcb_list headed))

module _ (list_base : ℕ) where
  -- `none` where the kernel's search for a slot gives no index; `state` is what the speaker's port
  -- holds.
  unfoldable pub handle_exec :
      ℕ → ShellState → Kernel → List ℕ → Option (ShellState × Kernel × List Action)
  unfolding load_request exec_message report print_line speaker_play
  handle_exec state s kernel command =
      let s1 = next_row s in
      let call : List ℕ → ℕ → ℕ → Option (ℕ × Kernel) = λ name buf buffer_size.
        process_create_user_process list_base kernel (load_request s1 name buf buffer_size) in
      if is_empty command
      then some (next_row (print_line (codes "exec: missing argument") s1), kernel, [])
      else if same_string command (codes "clock")
      then elim (call command 0x500000 0x400000) [
        | none ↦ none
        | some (result, kernel') ↦ some (
          next_row (
              print_line
                (if result == 0
                  then codes "Background process 'clock' started"
                  else codes "exec: failed to start clock process")
                s1),
          kernel',
          [],
        )
      ]
      else if same_string command (codes "beep")
      then elim (call command 0x600000 0x400000) [
        | none ↦ none
        | some (result, kernel') ↦ some (
          next_row (
              print_line
                (if result == 0
                  then codes "Background process 'beep' started"
                  else codes "exec: failed to start beep process")
                s1),
          kernel',
          if result == 0 then speaker_play state 400 else [],
        )
      ]
      else if same_string command (codes "shell")
      then elim (call command 0x400000 0x1000000) [
        | none ↦ none
        | some (result, kernel') ↦ some (
          next_row (
              print_line
                (if result == 0
                  then codes "Process 'shell' started successfully"
                  else if result == 4
                  then codes "exec: cannot read file 'shell'"
                  else codes "exec: failed to execute 'shell'")
                s1),
          kernel',
          [],
        )
      ]
      else elim (call command 0x400000 0x1000000) [
        | none ↦ none
        | some (result, kernel') ↦ some (report (exec_message command result) s1, kernel', [])
      ]

  -- The call of `kill` with a PID.
  unfoldable pub kill_pid : ShellState → Kernel → List ℕ → ℕ → ShellState × Kernel
  unfolding report
  kill_pid s kernel pid_str pid =
      let (result, kernel') = process_destroy list_base kernel pid in
      (
        report
            (if result
              then codes "Process " ∷ pid_str ∷ codes " terminated successfully" ∷ []
              else codes "kill: process "
                ∷ pid_str
                ∷ codes " not found or cannot be terminated"
                ∷ [])
            s,
        kernel',
      )

  -- `none` where the PID overflows an `int`.
  unfoldable pub handle_kill : ShellState → Kernel → List ℕ → Option (ShellState × Kernel)
  unfolding kill_pid string_to_int
  handle_kill s kernel pid_str =
      let invalid =
        some (report (codes "kill: invalid PID '" ∷ pid_str ∷ codes "'" ∷ []) s, kernel) in
      let number = string_to_int (length pid_str + 1) (put_name (λ _. 0) 0 pid_str) 0 in
      if is_empty pid_str
      then some (report (codes "kill: missing argument (usage: kill <pid>)" ∷ []) s, kernel)
      else elim number [
        | none ↦ none
        | some (negsuc n) ↦ invalid
        | some (pos pid) ↦ if pid == 0 then invalid else some (kill_pid s kernel pid_str pid)
      ]
