-- ===== src/Env/Tests.antt =====
-- Keys of variables, and the theorem about a child's environment at a concrete one.
use mathlib.Core.List.{Memᴰ}
use oxcer_agent.Prelude.{[], ◌∷◌, some, ◌≡◌, refl, ◌↔◌}
use oxcer_agent.Text.{codes, text_eq, starts_with, ends_with}
use oxcer_agent.Security.Tests.{ascii}
use oxcer_agent.Env.{Environment, filter_env_for_child, safe_env_for_child}
use oxcer_agent.Env.Passed.{passed, safe_env_for_child-passed}

abbrev vars : Environment
vars =
    (codes "HOME", codes "/home/a")
    ∷ (codes "db_password", codes "x")
    ∷ (codes "HOME", codes "/home/b")
    ∷ []

filtered : filter_env_for_child ascii vars ≡ (codes "HOME", codes "/home/b") ∷ []
unfolding filter_env_for_child starts_with text_eq ends_with
filtered = refl

safe_env_for_child-passed_example :
    Memᴰ
      (codes "HOME", codes "/home/b")
      (safe_env_for_child ascii vars (codes "/bin") (codes "C") (codes "dumb"))
    ↔ (passed ascii vars (codes "/bin") (codes "C") (codes "dumb") (codes "HOME")
        ≡ some (codes "/home/b"))
safe_env_for_child-passed_example =
    safe_env_for_child-passed ascii vars (codes "/bin") (codes "C") (codes "dumb") (codes "HOME")
      (codes "/home/b")
