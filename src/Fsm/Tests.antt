-- ===== src/Fsm/Tests.antt =====
-- Runs of the agent with a model that reads its answers from a list, and the theorems about it there.
use oxcer_agent.Prelude.{List, [], ◌∷◌, none, ok, ◌≡◌, refl, arith}
use oxcer_agent.Text.{Text, codes, text_eq, contains}
use oxcer_agent.Security.Tests.{ascii}
use oxcer_agent.Paths.{components}
use oxcer_agent.Executor.{
  path_traversal, read_document, guard_path, canonical_target, absolute_target, inside,
}
use oxcer_agent.Executor.Confined.{fenced}
use oxcer_agent.Executor.Tests.{machine-IsStraight, Disk, machine, plain_form, root}
use oxcer_agent.Fsm.{World}
use oxcer_agent.Fsm.Prompts.{is_summarization_query}
use oxcer_agent.Fsm.Run.{run, run_tool, new_context}
use oxcer_agent.Fsm.Budget.{Bounded, run-Bounded}
use oxcer_agent.Fsm.Confined.{run-fenced, KeepsBeside, refused_document-KeepsBeside}

-- The answers that the model still has to give, and the disk.
abbrev Script : Type 0
Script = List Text × Disk

abbrev next_answer : Script → Text × Script
next_answer ([], disk) = ([], ([], disk))
next_answer (answer ∷ answers, disk) = (answer, (answers, disk))

abbrev world : World Script
world = record {
  generate = λ w prompt. next_answer w;
  get_recent_context = λ w n. ok [];
  insert_fact = λ w query observation. w;
  desktop_dir = none;
  download_dir = none;
  document_dir = none;
  home_dir = none;
}

-- A model that reads a file outside the workspace.
abbrev outside : Script
outside = (codes "read_document /etc/a" ∷ codes "[NO_TOOL]" ∷ codes "All is well." ∷ [], [])

abbrev query : Text
query = codes "summarize it"

run-Bounded_example : Bounded 2 (run ascii world machine root 2 10 query outside)
run-Bounded_example = run-Bounded ascii world machine root 2 10 query outside (omega arith)

run-fenced_example :
    run ascii world (fenced (codes "/w") root machine) root 2 10 query outside
    ≡ run ascii world machine root 2 10 query outside
unfolding plain_form components
run-fenced_example =
    run-fenced ascii world machine root (codes "/w") 2 (λ w. refl) machine-IsStraight 10 query
      outside

refused_document-KeepsBeside_example :
    KeepsBeside ascii world machine root 2 (codes "/etc/a") (codes "All is well.") outside (
      run_tool ascii world machine root 2
        (read_document (codes "/etc/a"))
        (new_context query)
        outside)
unfolding plain_form components guard_path canonical_target absolute_target inside text_eq
    is_summarization_query contains
refused_document-KeepsBeside_example =
    refused_document-KeepsBeside ascii world machine root 2 (codes "/etc/a") (codes "All is well.")
      (new_context query) outside outside (path_traversal (codes "/etc/a")) refl refl
