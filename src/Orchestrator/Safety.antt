-- ===== src/Orchestrator/Safety.antt =====
-- oxcer-core/src/orchestrator/execution.rs: what the cap on the text in a prompt promises.
use oxcer_agent.Prelude.{
  ◌+◌, ◌≤◌, Bool, true, false, ◌++◌, ◌≡◌, refl, take, length, length-append, length-take-le, ltb,
  ltb→lt, ltb_false→le, if◌then◌else◌, arith,
}
use oxcer_agent.Text.{Text}
use oxcer_agent.Orchestrator.Emit.{capped, fs_result_max_chars, fs_result_truncation_notice}

-- A prompt gets at most 4000 characters of a tool's result, and the notice where some are missing; a
-- result that is short enough is left as it is.
pub capped_bounds :
    (raw : Text)
    → (length (capped raw) ≤ fs_result_max_chars + length fs_result_truncation_notice)
      × (length raw ≤ fs_result_max_chars → capped raw ≡ raw)
unfolding capped
capped_bounds raw = long_cases (ltb fs_result_max_chars (length raw)) refl
  where
    long_cases :
        (long : Bool)
        → ltb fs_result_max_chars (length raw) ≡ long
        → let out =
            if long then take fs_result_max_chars raw ++ fs_result_truncation_notice else raw in
          (length out ≤ fs_result_max_chars + length fs_result_truncation_notice)
          × (length raw ≤ fs_result_max_chars → out ≡ raw)
    long_cases true e = (
      omega (
        arith,
        length-append (take fs_result_max_chars raw) fs_result_truncation_notice,
        length-take-le fs_result_max_chars raw,
      ),
      λ short. absurd (omega (arith, short, ltb→lt fs_result_max_chars (length raw) e)),
    )
    long_cases false e =
        (omega (arith, ltb_false→le fs_result_max_chars (length raw) e), λ short. refl)
