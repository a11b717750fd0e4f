-- ===== src/Sensitivity/Sorted.antt =====
-- oxcer-core/src/data_sensitivity.rs, `sort_by_key` of findings: their order, and that it
-- keeps them all.
use oxcer_agent.Prelude.{
  ℕ, ◌≤◌, ◌≡◌, true, false, List, [], ◌∷◌, All, ◌⊎◌, inl, inr, Bool-cases, arith,
}
use oxcer_agent.Security.{SensitivityFinding}
use oxcer_agent.Sensitivity.Merge.{key_leb, insert_by_key, sort_by_key}
use oxcer_agent.Sensitivity.Spans.{Has}

-- Findings in the order of their starts, from a place on.
abbrev pub IsAscending : ℕ → List SensitivityFinding → Type 0
IsAscending lo [] = Unit
IsAscending lo (f ∷ fs) = (lo ≤ f.span_start) × IsAscending f.span_start fs

pub IsAscending-weaken :
    (lo lo' : ℕ) (fs : List SensitivityFinding) → lo ≤ lo' → IsAscending lo' fs → IsAscending lo fs
IsAscending-weaken lo lo' [] h asc = tt
IsAscending-weaken lo lo' (f ∷ fs) h (from, asc) = (omega arith, asc)

key_leb-start : (f g : SensitivityFinding) → key_leb f g ≡ true → f.span_start ≤ g.span_start
key_leb-start f g h = ground arith

key_leb-start_after : (f g : SensitivityFinding) → key_leb f g ≡ false → g.span_start ≤ f.span_start
key_leb-start_after f g h = ground arith

insert_by_key-IsAscending :
    (lo : ℕ) (f : SensitivityFinding) (fs : List SensitivityFinding)
    → lo ≤ f.span_start
    → IsAscending lo fs
    → IsAscending lo (insert_by_key f fs)
unfolding insert_by_key
insert_by_key-IsAscending lo f [] h asc = (h, tt)
insert_by_key-IsAscending lo f (g ∷ fs) h (from, asc) = elim (Bool-cases (key_leb f g)) [
  | inl e ↦ rw e (h, (key_leb-start f g e, asc))
  | inr e ↦ rw e (from, insert_by_key-IsAscending g.span_start f fs (key_leb-start_after f g e) asc)
]

pub sort_by_key-IsAscending : (fs : List SensitivityFinding) → IsAscending 0 (sort_by_key fs)
unfolding sort_by_key
sort_by_key-IsAscending [] = tt
sort_by_key-IsAscending (f ∷ fs) =
    insert_by_key-IsAscending 0 f (sort_by_key fs) (omega arith) (sort_by_key-IsAscending fs)

-- Sorting keeps what holds of all findings and what holds of some.
module _ (Holds : SensitivityFinding → Type 0) where
  insert_by_key-All :
      (f : SensitivityFinding) (fs : List SensitivityFinding)
      → Holds f
      → All Holds fs
      → All Holds (insert_by_key f fs)
  unfolding insert_by_key
  insert_by_key-All f [] h all_hold = (h, tt)
  insert_by_key-All f (g ∷ fs) h (h', all_hold) = elim (Bool-cases (key_leb f g)) [
    | inl e ↦ rw e (h, (h', all_hold))
    | inr e ↦ rw e (h', insert_by_key-All f fs h all_hold)
  ]

  pub sort_by_key-All : (fs : List SensitivityFinding) → All Holds fs → All Holds (sort_by_key fs)
  unfolding sort_by_key
  sort_by_key-All [] all_hold = tt
  sort_by_key-All (f ∷ fs) (h, all_hold) =
      insert_by_key-All f (sort_by_key fs) h (sort_by_key-All fs all_hold)

  insert_by_key-Has :
      (f : SensitivityFinding) (fs : List SensitivityFinding)
      → Holds f ⊎ Has Holds fs
      → Has Holds (insert_by_key f fs)
  unfolding insert_by_key
  insert_by_key-Has f [] has = has
  insert_by_key-Has f (g ∷ fs) has = elim (Bool-cases (key_leb f g)) [
    | inl e ↦ rw e has
    | inr e ↦ rw e (elim has [
      | inl here ↦ inr (insert_by_key-Has f fs (inl here))
      | inr later ↦ elim later [
        | inl next ↦ inl next
        | inr last ↦ inr (insert_by_key-Has f fs (inr last))
      ]
    ])
  ]

  pub sort_by_key-Has : (fs : List SensitivityFinding) → Has Holds fs → Has Holds (sort_by_key fs)
  unfolding sort_by_key
  sort_by_key-Has [] has = absurd has
  sort_by_key-Has (f ∷ fs) (inl here) = insert_by_key-Has f (sort_by_key fs) (inl here)
  sort_by_key-Has (f ∷ fs) (inr later) =
      insert_by_key-Has f (sort_by_key fs) (inr (sort_by_key-Has fs later))
