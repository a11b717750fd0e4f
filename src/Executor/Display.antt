-- ===== src/Executor/Display.antt =====
-- oxcer-core/src/executor.rs: the messages of its errors.
use oxcer_agent.Prelude.{
  ℕ, zero, suc, ◌+◌, ◌/◌, ◌%◌, ◌<◌, [], ◌∷◌, ◌++◌, ◌≡◌, refl, Option, none, some, ltb, ltb_false→le,
  Bool-cases, inl, inr, arith, if◌then◌else◌,
}
use oxcer_agent.Text.{Text, codes}
use oxcer_agent.Executor.{
  ExecutorError, path_traversal, command_not_allowed, io, command_failed, workspace_not_found,
  unsupported_format, document_parse, trash,
}

-- A number in decimal; a number has fewer digits than its value has units, and one more is for 0.
unfoldable pub digits : ℕ → ℕ → Text
digits zero n = []
digits (suc fuel) n =
    let more = digits fuel (n / 10) ++ (48 + n % 10) ∷ [] in
    if ltb n 10 then (48 + n) ∷ [] else more

unfoldable pub decimal : ℕ → Text
unfolding digits
decimal n = digits (suc n) n

unfoldable pub exit_text : Option ℕ → Text
unfolding decimal
exit_text none = codes "-1"
exit_text (some n) = decimal n

unfoldable pub display_error : ExecutorError → Text
unfolding exit_text
display_error (path_traversal p) =
    codes "path traversal denied: '" ++ (p ++ codes "' escapes workspace")
display_error (command_not_allowed c) =
    codes "shell command not in allowlist: '" ++ (c ++ codes "'")
display_error (io e) = codes "IO error: " ++ e
display_error (command_failed code stderr) =
    codes "command failed (exit " ++ (exit_text code ++ (codes "): " ++ stderr))
display_error (workspace_not_found p) = codes "workspace root does not exist: '" ++ (p ++ codes "'")
display_error (unsupported_format e) =
    codes "unsupported document format '"
    ++ (e ++ codes "': supported types are .txt .pdf .docx .xlsx")
display_error (document_parse e) = codes "document parse failed: " ++ e
display_error (trash e) = codes "trash error: " ++ e

printed : (decimal 0 ≡ codes "0") × (decimal 1024 ≡ codes "1024")
unfolding decimal
printed = (refl, refl)

-- More fuel than the number has units makes no difference.
digits_enough : (f g n : ℕ) → n < f → n < g → digits f n ≡ digits g n
unfolding digits
digits_enough zero g n enough enough' = absurd (omega (arith, enough))
digits_enough (suc f) zero n enough enough' = absurd (omega (arith, enough'))
digits_enough (suc f) (suc g) n enough enough' = elim (Bool-cases (ltb n 10)) [
  | inl small ↦ rw (digits, small) refl
  | inr large ↦
      let le = ltb_false→le n 10 large in
      rw (digits_enough f g (n / 10) (omega (arith, le, enough)) (omega (arith, le, enough'))) refl
]
