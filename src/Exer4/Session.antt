-- ===== src/Exer4/Session.antt =====
-- exer4/prio: the shell and the scheduler together, over the two pipes that `sched_create_shell` makes.
use cslab_os.Base.{ℕ, Bool, ◌⊎◌, ◌≡◌, List, [], ◌∷◌, ◌++◌}
use cslab_os.Base.Int.{ℤ}
use cslab_os.Text.{c_string}
use cslab_os.Exer4.Os.{Os, World, Wait, running}
use cslab_os.Exer4.Prio.Defs.{
  Vars, Request, boot, process_request, sigalrm_handler, sigchld_handler,
}
use cslab_os.Exer4.Prio.Main.{FreshBoot, start}
use cslab_os.ProcCommon.{Status}
use cslab_os.Exer4.Prio.Create.{FreshChild}
use cslab_os.Exer4.Cmdline.Defs.{
  RequestStruct, Reading, cmdline, get_cmdline, help, bad_command, issue, process_cmdline,
}
pub mod Args
pub mod Protocol
mod Tests

-- What the scheduler reads from the structure that the shell wrote; `exec_task_arg` is a C string.
unfoldable pub decode : RequestStruct → Request
decode RequestStruct.print_tasks = Request.print_tasks
decode (RequestStruct.kill_task id) = Request.kill_task id
decode (RequestStruct.high_task id) = Request.high_task id
decode (RequestStruct.low_task id) = Request.low_task id
decode (RequestStruct.exec_task arg) = Request.exec_task (c_string arg)

abbrev pub shell_cmdline_sz : ℕ
shell_cmdline_sz = 100

-- The shell is at its prompt, in `read` of `issue_request`, or has exited or was killed.
pub data Shell : Type 0 where
  prompting gone : Shell
  awaiting : RequestStruct → Shell

-- `shell_request_loop` is in `read`, before the `write` of an answer, or over. With the answer stands
-- the request, which the program does not keep.
pub data Loop : Type 0 where
  reading given_up : Loop
  replying : RequestStruct → ℤ → Loop

-- The shell's input, the two processes, what is in the pipes, and the scheduler's variables.
pub data State : Type 0 where
  state :
      (input : List ℕ) (shell : Shell) (loop : Loop) (requests : List RequestStruct)
      (replies : List ℤ) (world : World Vars)
      → State

pub data Step (os : Os) : State → State → Type 0 where
  -- A line that is no request.
  talk :
      {input line rest : List ℕ} {loop : Loop} {rqs : List RequestStruct} {rets : List ℤ}
      {w : World Vars}
      → get_cmdline shell_cmdline_sz input ≡ cmdline line rest
      → (process_cmdline line ≡ help) ⊎ (process_cmdline line ≡ bad_command)
      → Step os (state input prompting loop rqs rets w) (state rest prompting loop rqs rets w)
  ask :
      {input line rest : List ℕ} {loop : Loop} {rqs : List RequestStruct} {rets : List ℤ}
      {w : World Vars} (rq : RequestStruct)
      → get_cmdline shell_cmdline_sz input ≡ cmdline line rest
      → process_cmdline line ≡ issue rq
      → Step os
          (state input prompting loop rqs rets w)
          (state rest (awaiting rq) loop (rqs ++ rq ∷ []) rets w)
  receive :
      {input : List ℕ} {rq : RequestStruct} {loop : Loop} {rqs : List RequestStruct} {ret : ℤ}
      {rets : List ℤ} {w : World Vars}
      → Step os
          (state input (awaiting rq) loop rqs (ret ∷ rets) w)
          (state input prompting loop rqs rets w)
  -- "q", the end of the input, a failed call, or SIGKILL at any time.
  leave :
      {input : List ℕ} {shell : Shell} {loop : Loop} {rqs : List RequestStruct} {rets : List ℤ}
      {w : World Vars}
      → Step os (state input shell loop rqs rets w) (state input gone loop rqs rets w)
  -- Signals are blocked while a request is processed.
  serve :
      {input : List ℕ} {shell : Shell} {rq : RequestStruct} {rqs : List RequestStruct}
      {rets : List ℤ} {w w' : World Vars} {ret : ℤ}
      → process_request os (decode rq) w ≡ running ret w'
      → Step os
          (state input shell reading (rq ∷ rqs) rets w)
          (state input shell (replying rq ret) rqs rets w')
  reply :
      {input : List ℕ} {shell : Shell} {rq : RequestStruct} {ret : ℤ} {rqs : List RequestStruct}
      {rets : List ℤ} {w : World Vars}
      → Step os
          (state input shell (replying rq ret) rqs rets w)
          (state input shell reading rqs (rets ++ ret ∷ []) w)
  -- EPIPE, or the end of the pipe.
  cannot_reply :
      {input : List ℕ} {rq : RequestStruct} {ret : ℤ} {rqs : List RequestStruct} {rets : List ℤ}
      {w : World Vars}
      → Step os
          (state input gone (replying rq ret) rqs rets w)
          (state input gone given_up rqs rets w)
  no_request :
      {input : List ℕ} {rets : List ℤ} {w : World Vars}
      → Step os (state input gone reading [] rets w) (state input gone given_up [] rets w)
  alarm :
      {input : List ℕ} {shell : Shell} {loop : Loop} {rqs : List RequestStruct} {rets : List ℤ}
      {w w' : World Vars}
      → sigalrm_handler os w ≡ running tt w'
      → Step os (state input shell loop rqs rets w) (state input shell loop rqs rets w')
  child :
      {input : List ℕ} {shell : Shell} {loop : Loop} {rqs : List RequestStruct} {rets : List ℤ}
      {w w' : World Vars} (ws : List Wait)
      → sigchld_handler os ws w ≡ running tt w'
      → Step os (state input shell loop rqs rets w) (state input shell loop rqs rets w')

abbrev pub world_of : State → World Vars
world_of (state input shell loop rqs rets w) = w

-- A run from the end of `main`'s start on, where `fork` gives fresh pids.
pub data Run (os : Os) : State → Type 0 where
  begin :
      {w : World Vars} (input : List ℕ) (pipes : Bool) (names : List (List ℕ))
      (reports : List (ℕ × Status))
      → FreshBoot os pipes names
      → boot os pipes names reports start ≡ running tt w
      → Run os (state input prompting reading [] [] w)
  step : {s s' : State} → Run os s → FreshChild os (world_of s) → Step os s s' → Run os s'
