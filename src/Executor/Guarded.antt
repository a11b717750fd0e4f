-- ===== src/Executor/Guarded.antt =====
-- oxcer-core/src/executor.rs, `guard_path`: the form in which a path is let through.
use oxcer_agent.Prelude.{
  Bool, true, not, ◌||◌, Result, ok, err, steps_of_ok, ok-injective, ◌≡◌, refl, ap, ◌∙◌, inl, inr,
  Bool-cases,
}
use oxcer_agent.Text.{Text}
use oxcer_agent.Text.Laws.{text_eq_refl}
use oxcer_agent.Paths.{is_form_of}
use oxcer_agent.Executor.{Machine, or_io, canonical_target, absolute_target, guard_path}
use oxcer_agent.Executor.Confined.{stays, IsStraight, inside_sound, guard_path-inside}

-- A path that is its own canonical form on the machine.
abbrev pub is_canonical : {W : Type 0} → Machine W → W → Text → Bool
is_canonical m w p = is_form_of p (m.canonicalize w p)

-- What `canonicalize` documents: all links are resolved, so that a canonical path stays as it is.
abbrev pub IsResolving : {W : Type 0} → Machine W → Type 0
IsResolving {W = W} m = (w : W) (p q : Text) → m.canonicalize w p ≡ ok q → m.canonicalize w q ≡ ok q

-- A path stays below the root, and no link is followed in it where the target exists.
abbrev pub IsGuarded : {W : Type 0} → Machine W → Text → W → Text → Text → Type 0
IsGuarded m canonical_root w target p =
    (stays canonical_root p ≡ true)
    × ((not (m.exists w (absolute_target canonical_root target)) || is_canonical m w p) ≡ true)

module _ {W : Type 0} (m : Machine W) (w : W) (resolving : IsResolving m) where
  canonicalized-is_canonical :
      (path : Text) (r : Result Text Text) {p : Text}
      → m.canonicalize w path ≡ r
      → or_io r ≡ ok p
      → is_canonical m w p ≡ true
  canonicalized-is_canonical path (ok q) {p} found same =
      let here : m.canonicalize w p ≡ ok p =
        resolving w path p (found ∙ ap ok (ok-injective same)) in
      rw here (text_eq_refl p)
  canonicalized-is_canonical path (err e) found same = cc

  canonical_target-is_canonical :
      (path : Text) {p : Text}
      → canonical_target m w path ≡ ok p
      → (not (m.exists w path) || is_canonical m w p) ≡ true
  unfolding canonical_target
  canonical_target-is_canonical path {p} h = elim (Bool-cases (m.exists w path)) [
    | inl e ↦ rw e (canonicalized-is_canonical path (m.canonicalize w path) refl (rw e at h))
    | inr e ↦ rw e refl
  ]

-- A path that the guard lets through is below the canonical root and has no "..", and where the target
-- exists it is canonical, so that no link in it leads out of the root, if canonicalizing a path
-- resolves it. A target that does not exist as it is named may be a link all the same.
pub guard_path-IsGuarded :
    {W : Type 0} (m : Machine W) (root canonical_root : Text) (w : W) (target : Text) {p : Text}
    → m.canonicalize w root ≡ ok canonical_root
    → IsStraight m
    → IsResolving m
    → guard_path m root w target ≡ ok p
    → IsGuarded m canonical_root w target p
unfolding guard_path
guard_path-IsGuarded m root canonical_root w target {p} known straight resolving h =
    let (path, found, ended) =
      steps_of_ok (canonical_target m w (absolute_target canonical_root target)) _
        (rw known at h) in
    let (same, within) = inside_sound canonical_root target path ended in
    (
      guard_path-inside m root canonical_root w known straight target h,
      ap (λ q. not (m.exists w (absolute_target canonical_root target)) || is_canonical m w q) same
          ∙ canonical_target-is_canonical m w resolving (absolute_target canonical_root target)
              found,
    )
