-- ===== src/Lib.antt =====
-- The core of Oxcer, a local agent that works on files: a task is routed to a strategy, turned into a
-- plan of tool calls, and run step by step, while every tool call passes the security policy. The
-- library models these parts of oxcer-core, and how they work together.
--
-- The parts, and the files that model them:
--
-- - Prelude (with Tests, Lists, Results): what the other files share, namely Boolean tests on the
--   native numbers, lists measured by them, and `Result` for Rust's `Result`.
-- - Text, Paths: strings as lists of code points, with their length in UTF-8 bytes (`len`), the slice
--   `&s[..n]`, which panics inside a character (`slice_to`), and the operations of `str` and `Path`
--   that the source calls (Text/Trim: the laws of trimming and splitting; Text/Cut: slices and
--   replacement by bytes). The Unicode case tables
--   are the argument `Casing`; it says only what they do on ASCII.
-- - Security: oxcer-core/src/security. Security.antt and Security/Config.antt have the requests,
--   decisions and rules of policy_engine.rs and policy_config.rs; Security/Evaluate.antt is
--   `rule_matches` and `evaluate_with_config`; Security/Builtin.antt is `builtin_default_rules` and
--   `default_policy`, one definition a rule; Security/Loader.antt is `load_from_yaml`, `validate` and
--   `merge_rules`. Security/Select, Builtin/Table, Guarantees, Reasons and Loader/Laws prove what
--   they do. The parsers of YAML and JSON are the interface `Format`.
-- - Plugins: oxcer-core/src/plugins/mod.rs, `matching_ids_for_task` with its two indexes. Hash maps are
--   association lists, and the hash set of ids is the sorted list that the code makes of it in the
--   end. Filed and Laws prove what it finds. Plugins/Registry.antt is capability_registry.rs;
--   Positions, Indexed, Unique, Matches, Named and Agrees prove what it finds.
-- - Router: oxcer-core/src/semantic_router.rs. Router/Words.antt has the keyword lists and
--   heuristics, Router/Route.antt `route_task` and its variants.
-- - Orchestrator: oxcer-core/src/orchestrator. Orchestrator.antt has the session and its data
--   (types.rs), Trace the trace of a tool call (`build_tool_trace`), Expansion the steps that a
--   listing adds to a plan (`do_expand_plan`), Apply and Emit the two halves of `next_action`
--   (applying a result, and choosing the next step), NextAction the function itself, and Agent
--   `start_session`, `agent_step`, `agent_request` and `run_first_step`. ToolsOnly is the plan of
--   planning.rs for the tools alone (`build_plan_tools_only`), and Planning the choice of a plan
--   (`plan_for`, the match in `start_session`): Planning/Places finds the folder or file that a task
--   names, Planning/Build has the plans and their prompts, and Laws proves what they do.
--   Steps, Progress, Terminates, Answers, Panics and Safety prove what they do.
-- - Executor: oxcer-core/src/executor.rs. Executor.antt has the errors, the tools and `guard_path`
--   with `normalize_lexical`, Docx the reader of DOCX markup, Execute the tools (`execute`), and
--   Display the text of an error. Plain, Confined and Guarded prove where
--   the tools go.
-- - Guardrail: oxcer-core/src/guardrail.rs, `validate_action_selection` and `validate_final_answer`,
--   with its proofs in Laws.
-- - Fsm: oxcer-core/src/fsm.rs. Fsm.antt has the states and the context, Prompts the prompts, and Run
--   every state of `AgentFsm::run` (`transition`) with its loop. Recent, Budget and Confined prove
--   what they do.
-- - Fs: oxcer-core/src/fs.rs. Fs.antt has `normalize_and_resolve` and `evaluate_path_policy`, Ops the
--   six operations. Resolved, Confined and Existing prove where they go and when they fail.
-- - Env: oxcer-core/src/env_filter.rs, the environment of child processes. Passed
--   proves which variables that has.
-- - Shell: oxcer-core/src/shell.rs. Shell.antt has the catalog and the deny list, Bind the check of
--   parameters (`validate_and_bind_params`), Run the command's run (`shell_run`). Argv, Cwd and Waits
--   prove what is run, where, and that it ends.
-- - Memory: oxcer-core/src/memory.rs. Memory.antt has the store of facts, Markdown its file and the
--   parser; Laws and Persist prove that the file is read back and how many facts are kept, and Fuel
--   that the loop over tags has enough fuel.
-- - Sensitivity: oxcer-core/src/data_sensitivity.rs. Sensitivity.antt has the rules with the interface
--   `Matcher`, Merge `merge_findings` and `dedup_contained`, Mask `apply_masking` and
--   `classify_and_mask`. Spans, Covered, Headers and Recorded say what is recorded, Sorted, Separated
--   and Deduped what the merging leaves, Pieces and Cutting how the text is cut, and Hides what the
--   masked text holds.
-- - Sanitizer: oxcer-core/src/prompt_sanitizer.rs. Secrets.antt has `is_sensitive_path`,
--   Sanitizer.antt the two scrubbing calls, Payload the payload and the sanitized prompt. Laws, Audit
--   and Blanked prove what is sent, when the calls panic, and what has no part in a prompt.
--
-- How they interact: `agent_request` asks `agent_step` for the next step, which routes the task and
-- builds the session on its first call and calls `next_action` on the others; it hands the step to
-- the executor and feeds the result back. The executor is the record `AgentToolExecutor`, whose two
-- methods pass on a state of their own, and every tool call it makes is decided by the policy. The
-- other agent, of fsm.rs, asks the model for one tool at a time: the guardrail reads the line that
-- the model writes, and the executor runs the tool behind its guard on paths. The file system,
-- processes and the readers of PDF, ZIP and spreadsheets are the interface `Machine`, the model, the
-- database and the user's directories the interface `World`; both work on one state. The file system
-- service works on the interface `Disk`; the shell service resolves paths by it, and runs its
-- commands on the interface `Host`. The sanitizer stands on the classifier: a payload that it is given
-- is classified, masked, and refused for what the classifier finds.
--
-- Conventions. A panic is a result of its own: `none` of `next_action`, of the classifier and of
-- the scrubbing calls, `panicked` of `agent_step`, of the executor and of the state machine. The
-- loop of `agent_request` runs on fuel, and `none` means that the fuel ran out; two turns for each
-- step of the plan and three more are enough, since a step takes one turn, or two where it waits
-- for an approval. The loop of `AgentFsm::run` has 3 * max_steps + 4 turns at most, three for each
-- tool. The loop in `shell_run` that waits for a child polls 1201 times at most, where the clock
-- runs on; the two that read its pipes have no limit of their own, and run on fuel that is enough where
-- it is more than the bytes that come. `serde_json::Value` is a type `V` with the four operations that the code calls (`Json`).
-- Numbers are natural numbers: an index of a plan is a `usize` that stays at or below the plan's
-- length, and no subtraction of the source goes below 0, or it stops there (`saturating_sub`). The
-- share of a payload that is left, a quotient of floating-point numbers, is compared with a half by
-- doubling, which is exact for lengths below 2 ^ 53. Logging is left out, and so is
-- `format_tool_call`, which only logs.
--
-- Not modelled. The sanitizer is an argument of the planner, and the home directory another. The
-- helpers for the two workflows that are disabled for v0.1 (several files, moves) are left out, but
-- for the expansion of a plan. A policy request carries the result of the classifier. The regular
-- expressions of the classifier are those of an external crate: which ranges they match is the
-- interface `Matcher`, and the theorems hold for any matches that are ranges between characters. The
-- other parts of oxcer-core (plugin loader, terminal, mcp, subagent, telemetry), the back ends of
-- models, and the applications are not modelled; most of their code is input and output.
pub mod Prelude
pub mod Text
pub mod Paths
pub mod Security
pub mod Plugins
pub mod Router
pub mod Orchestrator
pub mod Executor
pub mod Guardrail
pub mod Fsm
pub mod Fs
pub mod Env
pub mod Shell
pub mod Memory
pub mod Sensitivity
pub mod Sanitizer
