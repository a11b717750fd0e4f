-- ===== src/Sensitivity/Pieces.antt =====
-- oxcer-core/src/data_sensitivity.rs, `apply_masking`: the text in pieces, what is kept and what is
-- hidden by turns, and the masked text put together from them.
use mathlib.Core.List.{append_assoc}
use oxcer_agent.Prelude.{
  ℕ, ◌+◌, ◌-◌, ◌≤◌, ◌≡◌, refl, sym, ap, ◌∙◌, Bool, true, false, ◌&&◌, List, [], ◌∷◌, ◌++◌, Option,
  none, some, ltb, leb, All, if◌then◌else◌, arith,
}
use oxcer_agent.Text.{Text, len}
use oxcer_agent.Text.Cut.{len-append, replace_range-middle}
use oxcer_agent.Security.{SensitivityLevel, low, medium, high, level_rank, SensitivityFinding}
use oxcer_agent.Sensitivity.{ClassifierOptions}
use oxcer_agent.Sensitivity.Mask.{
  drop_block, placeholder_high, replacement, mask_finding, mask_before, replaced, apply_masking,
}

-- A stretch of text that is kept and the stretch behind it that is hidden.
pub record Piece : Type 0 where
  pub kept : Text
  pub hidden : Text
  pub level : SensitivityLevel
  pub kind : Text
  pub pattern_id : Text

unfoldable pub raw_text : List Piece → Text → Text
raw_text [] tail = tail
raw_text (p ∷ pieces) tail = p.kept ++ (p.hidden ++ raw_text pieces tail)

-- What is shown for a hidden stretch: its kind, or nothing where it is dropped for its length.
unfoldable pub shown : ClassifierOptions → Piece → Text
unfolding drop_block len
shown options p = if drop_block options p.level (len p.hidden) then [] else placeholder_high p.kind

unfoldable pub masked_text : ClassifierOptions → List Piece → Text → Text
unfolding shown
masked_text options [] tail = tail
masked_text options (p ∷ pieces) tail =
    p.kept ++ (shown options p ++ masked_text options pieces tail)

-- The finding whose span is the hidden stretch, where the piece begins at a place.
unfoldable pub finding_at : ℕ → Piece → SensitivityFinding
unfolding len
finding_at n p = record {
  level = p.level;
  span_start = n + len p.kept;
  span_end = n + len p.kept + len p.hidden;
  kind = p.kind;
  pattern_id = p.pattern_id;
}

unfoldable pub findings_at : ℕ → List Piece → List SensitivityFinding
unfolding finding_at len
findings_at n [] = []
findings_at n (p ∷ pieces) = finding_at n p ∷ findings_at (n + len p.kept + len p.hidden) pieces

pub record IsHidden (p : Piece) : Type 0 where
  pub filled : 1 ≤ len p.hidden
  pub grave : 1 ≤ level_rank p.level

placeholder_or_none :
    (dropped : Bool) (level : SensitivityLevel) (kind : Text)
    → 1 ≤ level_rank level
    → (if dropped then some [] else elim level [
      | high ↦ some (placeholder_high kind)
      | medium ↦ some (placeholder_high kind)
      | low ↦ none
    ])
      ≡ some (if dropped then [] else placeholder_high kind)
placeholder_or_none true level kind grave = refl
placeholder_or_none false low kind grave = absurd (omega arith)
placeholder_or_none false medium kind grave = refl
placeholder_or_none false high kind grave = refl

sub_left : (n m : ℕ) → n + m - n ≡ m
sub_left n m = omega arith

replacement-shown :
    (options : ClassifierOptions) (p : Piece) (n : ℕ)
    → 1 ≤ level_rank p.level
    → replacement options p.level p.kind (n + len p.hidden - n) ≡ some (shown options p)
unfolding replacement shown
replacement-shown options p n grave =
    rw (sub_left n (len p.hidden))
      (placeholder_or_none (drop_block options p.level (len p.hidden)) p.level p.kind grave)

in_range : (a b c : ℕ) → 1 ≤ b → (ltb a (a + (b + c)) && leb (a + b) (a + (b + c))) ≡ true
in_range a b c filled = ground arith

replaced_middle :
    (front hidden back by : Text)
    → 1 ≤ len hidden
    → replaced (some by) (len front) (len front + len hidden) (front ++ (hidden ++ back))
      ≡ some (front ++ (by ++ back))
replaced_middle front hidden back by filled =
    rw
      (
        len-append front (hidden ++ back),
        len-append hidden back,
        in_range (len front) (len hidden) (len back) filled,
      )
      (replace_range-middle front hidden back by)

-- One finding is masked between what stands in front of it and behind it.
mask_finding-finding_at :
    (options : ClassifierOptions) (front back : Text) (p : Piece)
    → IsHidden p
    → mask_finding options (finding_at (len front) p) ((front ++ p.kept) ++ (p.hidden ++ back))
      ≡ some ((front ++ p.kept) ++ (shown options p ++ back))
unfolding mask_finding finding_at
mask_finding-finding_at options front back p h =
    ap
      (λ by.
        replaced by (len front + len p.kept) (len front + len p.kept + len p.hidden)
          ((front ++ p.kept) ++ (p.hidden ++ back)))
      (replacement-shown options p (len front + len p.kept) h.grave)
    ∙ rw (sym (len-append front p.kept))
        (replaced_middle (front ++ p.kept) p.hidden back (shown options p) h.filled)

pub regroup :
    (front kept hidden rest : Text)
    → front ++ (kept ++ (hidden ++ rest)) ≡ ((front ++ kept) ++ hidden) ++ rest
regroup front kept hidden rest =
    sym (append_assoc front kept (hidden ++ rest)) ∙ sym (append_assoc (front ++ kept) hidden rest)

apply_masking-regrouped :
    (options : ClassifierOptions) (front : Text) (p : Piece) (pieces : List Piece) (tail : Text)
    {out : Option Text}
    → apply_masking options
        (((front ++ p.kept) ++ p.hidden) ++ raw_text pieces tail)
        (findings_at (len ((front ++ p.kept) ++ p.hidden)) pieces)
      ≡ out
    → apply_masking options
        (front ++ (p.kept ++ (p.hidden ++ raw_text pieces tail)))
        (findings_at (len front + len p.kept + len p.hidden) pieces)
      ≡ out
apply_masking-regrouped options front p pieces tail same =
    rw
      (
        regroup front p.kept p.hidden (raw_text pieces tail),
        sym (len-append front p.kept),
        sym (len-append (front ++ p.kept) p.hidden),
      )
      same

apply_masking-behind :
    (options : ClassifierOptions) (front : Text) (pieces : List Piece) (tail : Text)
    → All IsHidden pieces
    → apply_masking options (front ++ raw_text pieces tail) (findings_at (len front) pieces)
      ≡ some (front ++ masked_text options pieces tail)
unfolding apply_masking raw_text masked_text findings_at
apply_masking-behind options front [] tail hidden = refl
apply_masking-behind options front (p ∷ pieces) tail (h, hidden) =
    ap (mask_before options (finding_at (len front) p)) (
      apply_masking-regrouped options front p pieces tail
        (apply_masking-behind options ((front ++ p.kept) ++ p.hidden) pieces tail hidden))
    ∙ rw (append_assoc (front ++ p.kept) p.hidden (masked_text options pieces tail)) (
        mask_finding-finding_at options front (masked_text options pieces tail) p h
        ∙ ap some (append_assoc front p.kept _))

-- Where the findings are the hidden stretches of the pieces, the masking shows what each stretch is
-- in its place, and does not panic.
pub apply_masking-findings_at :
    (options : ClassifierOptions) (pieces : List Piece) (tail : Text)
    → All IsHidden pieces
    → apply_masking options (raw_text pieces tail) (findings_at 0 pieces)
      ≡ some (masked_text options pieces tail)
unfolding len
apply_masking-findings_at options pieces tail hidden =
    apply_masking-behind options [] pieces tail hidden
