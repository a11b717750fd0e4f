-- ===== src/Fsm/Recent.antt =====
-- oxcer-core/src/fsm.rs, `push_recent_file`: the list of recent files.
use oxcer_agent.Prelude.{
  ◌+◌, ◌≤◌, Bool, true, false, not, List, [], ◌∷◌, ◌≡◌, refl, push, retain, drop, length,
  length-append, All, All-append, ltb, ltb_false→le, Bool-cases, inl, inr, arith, not-true,
}
use oxcer_agent.Text.{Text}
use oxcer_agent.Fsm.Run.{recent_files_max, path_eq, evict, push_recent_file}

-- No path is the same as a later one.
abbrev pub IsDistinct : List Text → Type 0
IsDistinct [] = Unit
IsDistinct (p ∷ ps) = All (λ q. path_eq p q ≡ false) ps × IsDistinct ps

-- The files are at most eight, and no two are the same.
pub record IsRecent (files : List Text) : Type 0 where
  pub few : length files ≤ recent_files_max
  pub distinct : IsDistinct files

module _ (Holds : Text → Type 0) (test : Text → Bool) where
  All-retain : (ps : List Text) → All Holds ps → All Holds (retain test ps)
  All-retain [] all = tt
  All-retain (p ∷ ps) (h, all) = test_cases (test p) (All-retain ps all)
    where
      test_cases :
          (keep : Bool)
          → All Holds (retain test ps)
          → All Holds (elim keep [ true ↦ p ∷ retain test ps | false ↦ retain test ps ])
      test_cases true rest = (h, rest)
      test_cases false rest = rest

retain-All : (test : Text → Bool) (ps : List Text) → All (λ p. test p ≡ true) (retain test ps)
retain-All test [] = tt
retain-All test (p ∷ ps) = test_cases (test p) refl (retain-All test ps)
  where
    test_cases :
        (keep : Bool)
        → test p ≡ keep
        → All (λ q. test q ≡ true) (retain test ps)
        → All
            (λ q. test q ≡ true)
            (elim keep [ true ↦ p ∷ retain test ps | false ↦ retain test ps ])
    test_cases true e rest = (e, rest)
    test_cases false e rest = rest

length-retain-le : (test : Text → Bool) (ps : List Text) → length (retain test ps) ≤ length ps
length-retain-le test [] = omega arith
length-retain-le test (p ∷ ps) = ground (arith, length-retain-le test ps)

IsDistinct-retain :
    (test : Text → Bool) (ps : List Text) → IsDistinct ps → IsDistinct (retain test ps)
IsDistinct-retain test [] distinct = tt
IsDistinct-retain test (p ∷ ps) (new, distinct) =
    test_cases (test p) (IsDistinct-retain test ps distinct)
  where
    test_cases :
        (keep : Bool)
        → IsDistinct (retain test ps)
        → IsDistinct (elim keep [ true ↦ p ∷ retain test ps | false ↦ retain test ps ])
    test_cases true rest = (All-retain (λ q. path_eq p q ≡ false) test ps new, rest)
    test_cases false rest = rest

IsDistinct-push :
    (ps : List Text) (path : Text)
    → IsDistinct ps
    → All (λ p. path_eq p path ≡ false) ps
    → IsDistinct (push ps path)
IsDistinct-push [] path distinct new = (tt, tt)
IsDistinct-push (p ∷ ps) path (others, distinct) (other, new) = (
  All-append (λ q. path_eq p q ≡ false) ps (path ∷ []) others (other, tt),
  IsDistinct-push ps path distinct new,
)

IsDistinct-drop : (ps : List Text) → IsDistinct ps → IsDistinct (drop 1 ps)
IsDistinct-drop [] distinct = tt
IsDistinct-drop (p ∷ ps) (new, distinct) = distinct

length-drop :
    (ps : List Text) → length ps ≤ recent_files_max + 1 → length (drop 1 ps) ≤ recent_files_max
length-drop [] le = omega arith
length-drop (p ∷ ps) le = omega arith

evict-IsRecent :
    (ps : List Text) → length ps ≤ recent_files_max + 1 → IsDistinct ps → IsRecent (evict ps)
unfolding evict
evict-IsRecent ps le distinct = elim (Bool-cases (ltb recent_files_max (length ps))) [
  | inl many ↦ rw many (record { few = length-drop ps le; distinct = IsDistinct-drop ps distinct })
  | inr few ↦
      rw few (record { few = ltb_false→le recent_files_max (length ps) few; distinct = distinct })
]

All-other :
    (path : Text) (ps : List Text)
    → All (λ p. not (path_eq p path) ≡ true) ps
    → All (λ p. path_eq p path ≡ false) ps
All-other path [] all = tt
All-other path (p ∷ ps) (h, all) = (not-true (path_eq p path) h, All-other path ps all)

-- Pushing a file keeps the list at eight files at most, with no two the same.
pub push_recent_file-IsRecent :
    (recent : List Text) (path : Text) → IsRecent recent → IsRecent (push_recent_file recent path)
unfolding push_recent_file
push_recent_file-IsRecent recent path valid =
    let kept : List Text = retain (λ p. not (path_eq p path)) recent in
    evict-IsRecent (push kept path)
      (omega (
        arith,
        length-append kept (path ∷ []),
        length-retain-le (λ p. not (path_eq p path)) recent,
        valid.few,
      ))
      (IsDistinct-push kept path
        (IsDistinct-retain (λ p. not (path_eq p path)) recent valid.distinct)
        (All-other path kept (retain-All (λ p. not (path_eq p path)) recent)))
