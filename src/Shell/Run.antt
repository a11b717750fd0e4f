-- ===== src/Shell/Run.antt =====
-- oxcer-core/src/shell.rs, `shell_run`: a command is started, waited for, and its output is read.
use oxcer_agent.Prelude.{
  ℕ, zero, suc, Bool, not, ◌+◌, ◌*◌, List, [], ◌∷◌, ◌++◌, Option, none, some, leb, length, Result,
  ok, err, ◌>>=◌, if◌then◌else◌,
}
use oxcer_agent.Text.{Text, Casing, codes}
use oxcer_agent.Env.{Environment, safe_env_for_child}
use oxcer_agent.Fs.{Disk, allow, deny, SecurityDecision}
use oxcer_agent.Shell.{
  ℤ, negsuc, ShellContext, CommandSpec, CommandCatalog, BoundCommand, ShellResult, ShellError,
  unknown_command, forbidden, io, timeout, shell_error, get, evaluate_command_policy,
  denial_message,
}
use oxcer_agent.Shell.Bind.{ParamJson, validate_and_bind_params}

-- What running a command uses of `std::process`, of the clock and of the environment. `try_wait` gives the
-- exit code of a child that has ended, `none` in it for a signal. A read of a pipe waits for a block, of
-- 4096 bytes at most, which is empty at the end of the stream. `elapsed` is in milliseconds since the
-- start.
pub record Host (W : Type 0) : Type 0 where
  pub vars : W → Environment
  pub spawn : W → BoundCommand → Environment → Result (Unit {0}) Text × W
  pub try_wait : W → Result (Option (Option ℤ)) Text × W
  pub kill : W → W
  pub elapsed : W → ℕ
  pub sleep : W → ℕ → W
  pub has_stdout : W → Bool
  pub has_stderr : W → Bool
  pub read_stdout : W → Result (List ℕ) Text × W
  pub read_stderr : W → Result (List ℕ) Text × W
  pub from_utf8_lossy : List ℕ → Text

abbrev pub max_output_bytes : ℕ
max_output_bytes = 512 * 1024

abbrev pub default_timeout : ℕ
default_timeout = 60 * 1000

-- Off macOS.
abbrev pub restricted_path : Text
restricted_path = codes "/usr/bin:/bin"

abbrev pub exit_code_of : Option ℤ → ℤ
exit_code_of none = negsuc 0
exit_code_of (some code) = code

abbrev pub io_error : {A : Type 0} → Text → Result A ShellError
io_error message = err (shell_error io message)

-- A block that does not fit is dropped.
unfoldable pub keep_block : List ℕ → List ℕ → List ℕ
keep_block buf block =
    if leb (length buf + length block) max_output_bytes then buf ++ block else buf

-- Where a turn of the waiting loop leads.
pub data Polled (W : Type 0) : Type 0 where
  ended : (exit_code : ℤ) (w : W) → Polled W
  failed : ShellError → W → Polled W
  waiting : W → Polled W

-- What a read gives: no bytes mean the end of the stream.
pub data Came (W : Type 0) : Type 0 where
  read_failed : Text → W → Came W
  at_end : W → Came W
  with_block : List ℕ → W → Came W

abbrev pub came : {W : Type 0} → Result (List ℕ) Text × W → Came W
came (err e, w) = read_failed e w
came (ok [], w) = at_end w
came (ok (b ∷ block), w) = with_block (b ∷ block) w

unfoldable pub permitted : SecurityDecision → Result (Unit {0}) ShellError
permitted decision = elim decision.decision [
  | allow ↦ ok tt
  | deny ↦ err (shell_error forbidden (denial_message decision.reason))
]

abbrev pub known_command : Text → Option CommandSpec → Result CommandSpec ShellError
known_command id none = err (shell_error unknown_command (codes "unknown command: " ++ id))
known_command id (some spec) = ok spec

module _ {W : Type 0} (h : Host W) where
  unfoldable pub polled : Result (Option (Option ℤ)) Text × W → Polled W
  polled (err e, w) = failed (shell_error io (codes "wait failed: " ++ e)) (h.kill w)
  polled (ok (some code), w) = ended (exit_code_of code) w
  polled (ok none, w) =
      if leb default_timeout (h.elapsed w)
      then failed (shell_error timeout (codes "command timed out after 60s")) (h.kill w)
      else waiting (h.sleep w 50)

  -- The loop on fuel; `none` means that the fuel ran out.
  unfoldable pub wait_loop : ℕ → W → Option (Result ℤ ShellError × W)
  unfolding polled
  wait_loop zero w = none
  wait_loop (suc fuel) w = elim (polled (h.try_wait w)) [
    | ended code w' ↦ some (ok code, w')
    | failed e w' ↦ some (err e, w')
    | waiting w' ↦ wait_loop fuel w'
  ]

  -- The loop that reads a stream up to its end, on fuel like the other: nothing in it limits how often
  -- it reads.
  unfoldable pub read_loop :
      (W → Result (List ℕ) Text × W) → ℕ → List ℕ → W → Option (Result (List ℕ) ShellError × W)
  unfolding keep_block
  read_loop read zero buf w = none
  read_loop read (suc fuel) buf w = elim (came (read w)) [
    | read_failed e w' ↦ some (io_error e, w')
    | at_end w' ↦ some (ok buf, w')
    | with_block block w' ↦ read_loop read fuel (keep_block buf block) w'
  ]

  -- What follows a stream that was read.
  abbrev pub then_read :
      Option (Result (List ℕ) ShellError × W)
      → (List ℕ → W → Option (Result ShellResult ShellError × W))
      → Option (Result ShellResult ShellError × W)
  then_read none next = none
  then_read (some (err e, w)) next = some (err e, w)
  then_read (some (ok buf, w)) next = next buf w

  unfoldable pub read_output : ℕ → ℤ → W → Option (Result ShellResult ShellError × W)
  unfolding read_loop
  read_output fuel exit_code w =
      if not (h.has_stdout w)
      then some (io_error (codes "stdout not captured"), w)
      else if not (h.has_stderr w)
      then some (io_error (codes "stderr not captured"), w)
      else then_read (read_loop h.read_stdout fuel [] w) (λ out_buf w'.
        then_read (read_loop h.read_stderr fuel [] w') (λ err_buf w''. some (
          ok (record {
            stdout = h.from_utf8_lossy out_buf;
            stderr = h.from_utf8_lossy err_buf;
            exit_code = exit_code;
          }),
          w'',
        )))

  unfoldable pub finished :
      ℕ → Option (Result ℤ ShellError × W) → Option (Result ShellResult ShellError × W)
  unfolding read_output
  finished fuel none = none
  finished fuel (some (err e, w)) = some (err e, w)
  finished fuel (some (ok code, w)) = read_output fuel code w

  unfoldable pub started :
      ℕ → Text → Result (Unit {0}) Text × W → Option (Result ShellResult ShellError × W)
  unfolding wait_loop finished
  started fuel binary (err e, w) =
      some (io_error (codes "failed to spawn " ++ (binary ++ (codes ": " ++ e))), w)
  started fuel binary (ok u, w) = finished fuel (wait_loop fuel w)

  unfoldable pub run_bound :
      Casing → ℕ → W → BoundCommand → Option (Result ShellResult ShellError × W)
  unfolding started safe_env_for_child
  run_bound cs fuel w bound = started fuel bound.binary (
      h.spawn w bound
        (safe_env_for_child cs (h.vars w) restricted_path (codes "en_US.UTF-8") (codes "dumb")))

  abbrev pub run_checked :
      Casing → ℕ → W → Result BoundCommand ShellError → Option (Result ShellResult ShellError × W)
  run_checked cs fuel w (err e) = some (err e, w)
  run_checked cs fuel w (ok bound) = run_bound cs fuel w bound

  -- The checks in front of the command.
  unfoldable pub checked :
      {V : Type 0}
      → Casing
      → ParamJson V
      → Disk W
      → Option Text
      → W
      → ShellContext
      → CommandCatalog
      → Text
      → V
      → Result BoundCommand ShellError
  unfolding get validate_and_bind_params evaluate_command_policy permitted
  checked cs js d current_dir w ctx catalog command_id params = do
    spec ← known_command command_id (get command_id catalog)
    bound ← validate_and_bind_params js d w current_dir spec params ctx
    policy ← permitted (evaluate_command_policy cs bound)
    ok bound

  unfoldable pub shell_run :
      {V : Type 0}
      → Casing
      → ParamJson V
      → Disk W
      → Option Text
      → ℕ
      → W
      → ShellContext
      → CommandCatalog
      → Text
      → V
      → Option (Result ShellResult ShellError × W)
  unfolding checked run_bound
  shell_run cs js d current_dir fuel w ctx catalog command_id params =
      run_checked cs fuel w (checked cs js d current_dir w ctx catalog command_id params)
