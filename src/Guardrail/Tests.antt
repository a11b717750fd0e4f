-- ===== src/Guardrail/Tests.antt =====
-- Lines of a model, and the theorem about the guardrail at a concrete call.
use oxcer_agent.Prelude.{ok, err, ◌≡◌, refl}
use oxcer_agent.Text.{codes, text_eq, trim, split_once, is_whitespace}
use oxcer_agent.Executor.{move_file}
use oxcer_agent.Guardrail.{
  tool, no_tool, empty_response, hallucination_detected, validate_action_selection, select_tool,
  one_path, two_parts,
}
use oxcer_agent.Guardrail.Laws.{print_call, validate_action_selection-print_call}

nothing : validate_action_selection (codes " \n") ≡ err empty_response
unfolding validate_action_selection trim is_whitespace
nothing = refl

done : validate_action_selection (codes " [NO_TOOL] ") ≡ ok no_tool
unfolding validate_action_selection trim is_whitespace text_eq
done = refl

pathless :
    validate_action_selection (codes "fs_read_file")
    ≡ err (hallucination_detected (codes "fs_read_file requires a path argument"))
unfolding validate_action_selection trim is_whitespace text_eq select_tool one_path two_parts
    split_once
pathless = refl

validate_action_selection-print_call_example :
    validate_action_selection (print_call (move_file (codes "my file.txt") (codes "b.txt")))
    ≡ ok (tool (move_file (codes "my file.txt") (codes "b.txt")))
unfolding trim is_whitespace
validate_action_selection-print_call_example =
    validate_action_selection-print_call (move_file (codes "my file.txt") (codes "b.txt")) (
      record { starts = refl; ends = refl },
      record { starts = refl; ends = refl },
      (refl, (refl, (refl, (refl, (refl, (refl, (refl, (refl, (refl, (refl, (refl, tt))))))))))),
    )
