-- ===== src/Security/Guarantees.antt =====
-- What the built-in policy guarantees of untrusted callers and of sensitive targets.
use mathlib.Core.List.{Memᴰ}
use oxcer_agent.Prelude.{
  ℕ, ◌≤◌, ◌≡◌, ◌∙◌, ◌≢◌, ◌⊎◌, List, [], ◌∷◌, Option, some, Bool, true, false, ||_true, arith, any,
}
use oxcer_agent.Text.{Text, Casing}
use oxcer_agent.Paths.{path_starts_with}
use oxcer_agent.Security.{
  PolicyCaller, ui, agent_orchestrator, ToolType, fs, shell, Operation, read, delete, rename, move,
  chmod, PolicyTarget, fs_path, shell_command, PolicyRequest, PolicyDecisionKind, allow, deny,
  require_approval, SensitivityResult, tool_type_eq, operation_eq,
}
use oxcer_agent.Security.Config.{
  expand_home_pattern, path_matches, command_matches, command_pattern_matches,
}
use oxcer_agent.Security.Evaluate.{evaluate_with_config}
use oxcer_agent.Security.Builtin.{blocklist_paths, blacklist_commands, default_policy}
use oxcer_agent.Security.Builtin.Table.{builtin_table, hits_of, Hits, decision-default_policy}

-- Deny over approval over allow.
abbrev pub restrictiveness : PolicyDecisionKind → ℕ
restrictiveness allow = 0
restrictiveness require_approval = 1
restrictiveness deny = 2

table-agent_allow :
    (t : ToolType) (o : Operation) (hits : Hits)
    → builtin_table agent_orchestrator t o hits ≡ allow
    → (t ≡ fs) × (o ≡ read) × (hits.blocklisted ≡ false)
unfolding tool_type_eq operation_eq
table-agent_allow t o hits h = ground arith

-- The agent is allowed, without approval, to do nothing but read a file whose path is not on the
-- blocklist.
pub agent-allow-read_only :
    (cs : Casing) (home : Option Text) (request : PolicyRequest)
    → request.caller ≡ agent_orchestrator
    → (evaluate_with_config cs home request default_policy).decision ≡ allow
    → (request.tool_type ≡ fs)
      × (request.operation ≡ read)
      × (path_matches (some blocklist_paths) request.target home ≡ false)
agent-allow-read_only cs home request agent h =
    unfold hits_of in
    table-agent_allow request.tool_type request.operation (hits_of cs home request.target)
      (rw (decision-default_policy cs home request, agent) at h)

table-agent-ui :
    (t : ToolType) (o : Operation) (hits : Hits)
    → restrictiveness (builtin_table ui t o hits)
      ≤ restrictiveness (builtin_table agent_orchestrator t o hits)
unfolding tool_type_eq operation_eq
table-agent-ui t o hits = ground arith

-- For the same tool, operation, target and content the agent is never decided on less
-- restrictively than the user interface.
pub agent-ui_restrictiveness :
    (cs : Casing) (home : Option Text) (t : ToolType) (o : Operation) (target : PolicyTarget)
    (content : Option SensitivityResult)
    → let from = λ (caller : PolicyCaller).
      (evaluate_with_config cs home
        (record {
          caller = caller;
          tool_type = t;
          operation = o;
          target = target;
          content_sensitivity = content;
        })
        default_policy).decision in
      restrictiveness (from ui) ≤ restrictiveness (from agent_orchestrator)
agent-ui_restrictiveness cs home t o target content =
    rw (decision-default_policy, decision-default_policy)
      (table-agent-ui t o (hits_of cs home target))

any-Memᴰ : (p : Text → Bool) (x : Text) (xs : List Text) → Memᴰ x xs → p x ≡ true → any p xs ≡ true
any-Memᴰ p x [] m h = elim m [ ]
any-Memᴰ p x (y ∷ ys) (Memᴰ.head e) h = rw (← e, h)
any-Memᴰ p x (y ∷ ys) (Memᴰ.tail m) h = rw (any-Memᴰ p x ys m h) (||_true (p y))

-- A path at or below a location of the blocklist is denied to every caller, for every tool and
-- operation. Locations are compared by whole path components, after "~/" is expanded.
pub blocklisted_path-deny :
    (cs : Casing) (home : Option Text) (request : PolicyRequest) (canonical_path pattern : Text)
    → request.target ≡ fs_path canonical_path
    → Memᴰ pattern blocklist_paths
    → path_starts_with canonical_path (expand_home_pattern pattern home) ≡ true
    → (evaluate_with_config cs home request default_policy).decision ≡ deny
unfolding hits_of path_matches
blocklisted_path-deny cs home request path pattern at member below =
    decision-default_policy cs home request
    ∙ rw (at, any-Memᴰ _ pattern blocklist_paths member below)

-- A shell command whose id or normalized form holds a word of the blacklist is denied to every
-- caller.
pub blacklisted_command-deny :
    (cs : Casing) (home : Option Text) (request : PolicyRequest) (cmd_id : Text)
    (normalized : Option Text) (pattern : Text)
    → request.tool_type ≡ shell
    → request.target ≡ shell_command cmd_id normalized
    → Memᴰ pattern blacklist_commands
    → command_pattern_matches cs cmd_id normalized pattern ≡ true
    → (evaluate_with_config cs home request default_policy).decision ≡ deny
unfolding hits_of command_matches tool_type_eq path_matches
blacklisted_command-deny cs home request cmd_id normalized pattern tool at member inside =
    decision-default_policy cs home request
    ∙ rw (at, tool, any-Memᴰ _ pattern blacklist_commands member inside)

-- The operations that destroy or move files.
abbrev pub IsDestructive : Operation → Type 0
IsDestructive o = (o ≡ delete) ⊎ (o ≡ rename) ⊎ (o ≡ move) ⊎ (o ≡ chmod)

table-destructive :
    (c : PolicyCaller) (o : Operation) (hits : Hits)
    → IsDestructive o
    → builtin_table c fs o hits ≢ allow
unfolding tool_type_eq operation_eq
table-destructive c o hits h = ground arith

-- No caller, the internal system included, is allowed without approval to delete, rename, move or
-- chmod a file.
pub destructive-ne-allow :
    (cs : Casing) (home : Option Text) (request : PolicyRequest)
    → request.tool_type ≡ fs
    → IsDestructive request.operation
    → (evaluate_with_config cs home request default_policy).decision ≢ allow
destructive-ne-allow cs home request tool h =
    rw (decision-default_policy cs home request, tool)
      (table-destructive request.caller request.operation (hits_of cs home request.target) h)
