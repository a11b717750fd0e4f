-- ===== src/Security/Builtin/Words.antt =====
-- How the words of the built-in policy are read, whatever the case tables say beyond ASCII.
use oxcer_agent.Prelude.{
  ◌≡◌, refl, ◌||◌, List, [], ◌∷◌, Option, none, some, Bool, true, ||_false, &&_true,
}
use oxcer_agent.Text.{Text, Casing, codes}
use oxcer_agent.Security.{
  PolicyTarget, PolicyCaller, ui, agent_orchestrator, internal_system, ToolType, fs, shell,
  Operation, read, write, delete, rename, move, chmod, exec, caller_eq, tool_type_eq, operation_eq,
}
use oxcer_agent.Security.Config.{
  str_to_caller, str_to_tool_type, str_to_operation, caller_matches, tool_type_matches,
  operation_matches, command_matches, path_matches,
}

module _ (cs : Casing) where
  ui_word : str_to_caller cs (codes "ui") ≡ some ui
  unfolding str_to_caller
  ui_word = rw (cs.uppercase_ascii (codes "ui") refl)

  agent_word : str_to_caller cs (codes "agent_orchestrator") ≡ some agent_orchestrator
  unfolding str_to_caller
  agent_word = rw (cs.uppercase_ascii (codes "agent_orchestrator") refl)

  internal_word : str_to_caller cs (codes "internal_system") ≡ some internal_system
  unfolding str_to_caller
  internal_word = rw (cs.uppercase_ascii (codes "internal_system") refl)

  fs_word : str_to_tool_type cs (codes "fs") ≡ some fs
  unfolding str_to_tool_type
  fs_word = rw (cs.uppercase_ascii (codes "fs") refl)

  shell_word : str_to_tool_type cs (codes "shell") ≡ some shell
  unfolding str_to_tool_type
  shell_word = rw (cs.uppercase_ascii (codes "shell") refl)

  read_word : str_to_operation cs (codes "read") ≡ some read
  unfolding str_to_operation
  read_word = rw (cs.lowercase_ascii (codes "read") refl)

  write_word : str_to_operation cs (codes "write") ≡ some write
  unfolding str_to_operation
  write_word = rw (cs.lowercase_ascii (codes "write") refl)

  delete_word : str_to_operation cs (codes "delete") ≡ some delete
  unfolding str_to_operation
  delete_word = rw (cs.lowercase_ascii (codes "delete") refl)

  rename_word : str_to_operation cs (codes "rename") ≡ some rename
  unfolding str_to_operation
  rename_word = rw (cs.lowercase_ascii (codes "rename") refl)

  move_word : str_to_operation cs (codes "move") ≡ some move
  unfolding str_to_operation
  move_word = rw (cs.lowercase_ascii (codes "move") refl)

  chmod_word : str_to_operation cs (codes "chmod") ≡ some chmod
  unfolding str_to_operation
  chmod_word = rw (cs.lowercase_ascii (codes "chmod") refl)

  exec_word : str_to_operation cs (codes "exec") ≡ some exec
  unfolding str_to_operation
  exec_word = rw (cs.lowercase_ascii (codes "exec") refl)

  -- The criteria of the built-in rules, as tests on the request's fields.
  pub ui_matches :
      (c : PolicyCaller) → caller_matches cs (some (codes "ui" ∷ [])) c ≡ caller_eq ui c
  unfolding caller_matches
  ui_matches c = rw ui_word (||_false _)

  pub agent_matches :
      (c : PolicyCaller)
      → caller_matches cs (some (codes "agent_orchestrator" ∷ [])) c
        ≡ caller_eq agent_orchestrator c
  unfolding caller_matches
  agent_matches c = rw agent_word (||_false _)

  pub internal_matches :
      (c : PolicyCaller)
      → caller_matches cs (some (codes "internal_system" ∷ [])) c ≡ caller_eq internal_system c
  unfolding caller_matches
  internal_matches c = rw internal_word (||_false _)

  pub fs_matches :
      (t : ToolType) → tool_type_matches cs (some (codes "fs" ∷ [])) t ≡ tool_type_eq fs t
  unfolding tool_type_matches
  fs_matches t = rw fs_word (||_false _)

  pub shell_matches :
      (t : ToolType) → tool_type_matches cs (some (codes "shell" ∷ [])) t ≡ tool_type_eq shell t
  unfolding tool_type_matches
  shell_matches t = rw shell_word (||_false _)

  pub read_matches :
      (o : Operation) → operation_matches cs (some (codes "read" ∷ [])) o ≡ operation_eq read o
  unfolding operation_matches
  read_matches o = rw read_word (||_false _)

  pub write_matches :
      (o : Operation) → operation_matches cs (some (codes "write" ∷ [])) o ≡ operation_eq write o
  unfolding operation_matches
  write_matches o = rw write_word (||_false _)

  pub exec_matches :
      (o : Operation) → operation_matches cs (some (codes "exec" ∷ [])) o ≡ operation_eq exec o
  unfolding operation_matches
  exec_matches o = rw exec_word (||_false _)

  pub read_write_matches :
      (o : Operation)
      → operation_matches cs (some (codes "read" ∷ codes "write" ∷ [])) o
        ≡ (operation_eq read o || operation_eq write o)
  unfolding operation_matches
  read_write_matches o = simp (read_word, write_word, ||_false)

  pub destructive_matches :
      (o : Operation)
      → operation_matches cs
          (some (codes "delete" ∷ codes "rename" ∷ codes "move" ∷ codes "chmod" ∷ []))
          o
        ≡ (operation_eq delete o
            || (operation_eq rename o || (operation_eq move o || operation_eq chmod o)))
  unfolding operation_matches
  destructive_matches o = simp (delete_word, rename_word, move_word, chmod_word, ||_false)

  -- A criterion that is absent.
  pub caller_any : (c : PolicyCaller) → caller_matches cs none c ≡ true
  unfolding caller_matches
  caller_any c = refl

  pub tool_type_any : (t : ToolType) → tool_type_matches cs none t ≡ true
  unfolding tool_type_matches
  tool_type_any t = refl

  pub operation_any : (o : Operation) → operation_matches cs none o ≡ true
  unfolding operation_matches
  operation_any o = refl

  pub command_any : (target : PolicyTarget) → command_matches cs none target ≡ true
  unfolding command_matches
  command_any target = refl

pub path_any : (target : PolicyTarget) (home : Option Text) → path_matches none target home ≡ true
unfolding path_matches
path_any target home = refl

pub ruleset words = (
  caller_any, tool_type_any, operation_any, command_any, path_any, ui_matches, agent_matches,
  internal_matches, fs_matches, shell_matches, read_matches, write_matches, exec_matches,
  read_write_matches, destructive_matches, &&_true,
)
