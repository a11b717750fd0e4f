-- ===== src/Shell/Waits.antt =====
-- oxcer-core/src/shell.rs, `shell_run`: the loop that waits for the child, and the ones that read its output.
use oxcer_agent.Prelude.{ℕ, ◌+◌, ◌≤◌, ◌<◌, List, Option, none, some, length, Result, ok, ◌≡◌}
use oxcer_agent.Text.{Text}
use oxcer_agent.Shell.Run.{Host, default_timeout, Polled, ended, failed, waiting}

-- A run that ends.
abbrev pub Ends : {A : Type 0} → Option A → Type 0
Ends none = ⊥
Ends (some a) = Unit

-- The clock runs on while the child is asked for, and by 50 ms at least in a sleep of 50 ms.
pub record IsClock {W : Type 0} (h : Host W) : Type 0 where
  pub asked : (w : W) → h.elapsed w ≤ h.elapsed (h.try_wait w).1
  pub slept : (w : W) → h.elapsed w + 50 ≤ h.elapsed (h.sleep w 50)

module _ {W : Type 0} (h : Host W) (clock : IsClock h) where
  -- A turn goes on before the time is up only, and 50 ms later.
  abbrev GoesOn : ℕ → Polled W → Type 0
  GoesOn since (waiting w) = (since + 50 ≤ h.elapsed w) × (since < default_timeout)
  GoesOn since (ended code w) = Unit
  GoesOn since (failed e w) = Unit

-- A pipe through which at most `n` bytes come: `left` counts those to come, and a read takes its block
-- from them.
pub record IsPipe {W : Type 0} (read : W → Result (List ℕ) Text × W) (n : ℕ) : Type 0 where
  pub left : W → ℕ
  pub bounded : (w : W) → left w ≤ n
  pub taken :
      (w w' : W) (block : List ℕ) → read w ≡ (ok block, w') → length block + left w' ≤ left w
