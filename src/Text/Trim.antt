-- ===== src/Text/Trim.antt =====
-- What trimming and splitting leave of a text that is put together from trimmed parts.
use oxcer_agent.Prelude.{
  all, not, both_true, or_right, not-true, ℕ, Bool, true, false, List, [], ◌∷◌, ◌++◌, none, some,
  ◌≡◌, refl, ap, ◌∙◌, is_empty, All,
}
use oxcer_agent.Text.{
  Text, is_whitespace, trim_start, trim_end, before_blanks, trim, split_once, word_and_rest,
  close_word, split_whitespace, contains, starts_with,
}

-- A text that begins with a character other than a blank.
abbrev pub BeginsSolid : Text → Type 0
BeginsSolid [] = ⊥
BeginsSolid (c ∷ s) = is_whitespace c ≡ false

-- A text that is not empty and has no blank at either end.
pub record IsTrimmed (s : Text) : Type 0 where
  pub starts : BeginsSolid s
  pub ends : trim_end s ≡ s

pub is_empty-BeginsSolid : (s : Text) → BeginsSolid s → is_empty s ≡ false
is_empty-BeginsSolid [] solid = absurd solid
is_empty-BeginsSolid (c ∷ s) solid = refl

pub trim_start-BeginsSolid : (s : Text) → BeginsSolid s → trim_start s ≡ s
unfolding trim_start
trim_start-BeginsSolid [] solid = absurd solid
trim_start-BeginsSolid (c ∷ s) solid = rw solid refl

pub BeginsSolid-append : (s t : Text) → BeginsSolid s → BeginsSolid (s ++ t)
BeginsSolid-append [] t solid = absurd solid
BeginsSolid-append (c ∷ s) t solid = solid

pub trim-IsTrimmed : (s : Text) → IsTrimmed s → trim s ≡ s
unfolding trim
trim-IsTrimmed s t = rw (trim_start-BeginsSolid s t.starts, t.ends) refl

-- What stands in front of a text that ends well is not touched.
pub trim_end-append :
    (s t : Text) → is_empty t ≡ false → trim_end t ≡ t → trim_end (s ++ t) ≡ s ++ t
unfolding trim_end
trim_end-append [] t filled ends = ends
trim_end-append (c ∷ []) [] filled ends = cc
trim_end-append (c ∷ []) (d ∷ t) filled ends = rw ends refl
trim_end-append (c ∷ d ∷ s) t filled ends = rw (trim_end-append (d ∷ s) t filled ends) refl

-- A blank at the end goes.
pub trim_end-append_blank :
    (s : Text) (c : ℕ) → is_whitespace c ≡ true → trim_end (s ++ c ∷ []) ≡ trim_end s
unfolding trim_end before_blanks
trim_end-append_blank [] c blank = rw blank refl
trim_end-append_blank (d ∷ s) c blank = rw (trim_end-append_blank s c blank) refl

-- Two texts that are put together so are trimmed where they meet the outside.
pub IsTrimmed-append :
    (s t : Text) → BeginsSolid s → is_empty t ≡ false → trim_end t ≡ t → IsTrimmed (s ++ t)
IsTrimmed-append s t solid filled ends = record {
  starts = BeginsSolid-append s t solid;
  ends = trim_end-append s t filled ends;
}

-- A blank at the end is trimmed away.
pub trim-append_blank :
    (s : Text) (c : ℕ) → IsTrimmed s → is_whitespace c ≡ true → trim (s ++ c ∷ []) ≡ s
unfolding trim
trim-append_blank s c t blank =
    rw (trim_start-BeginsSolid (s ++ c ∷ []) (BeginsSolid-append s (c ∷ []) t.starts))
      (trim_end-append_blank s c blank ∙ t.ends)

-- So is one at the beginning.
pub trim_blank : (s : Text) (c : ℕ) → IsTrimmed s → is_whitespace c ≡ true → trim (c ∷ s) ≡ s
unfolding trim trim_start
trim_blank s c t blank = rw (blank, trim_start-BeginsSolid s t.starts, t.ends) refl

-- A text is cut at the first character that fits.
pub split_once-append :
    (p : ℕ → Bool) (s t : Text) (c : ℕ)
    → All (λ d. p d ≡ false) s
    → p c ≡ true
    → split_once p (s ++ c ∷ t) ≡ (s, some t)
unfolding split_once
split_once-append p [] t c none_fits fits = rw fits refl
split_once-append p (d ∷ s) t c (other, none_fits) fits =
    rw (split_once-append p s t c none_fits fits, other) refl

pub split_once-none :
    (p : ℕ → Bool) (s : Text) → All (λ d. p d ≡ false) s → split_once p s ≡ (s, none)
unfolding split_once
split_once-none p [] none_fits = refl
split_once-none p (d ∷ s) (other, none_fits) = rw (split_once-none p s none_fits, other) refl

-- A word: not empty, and with no blank.
pub record IsWord (w : Text) : Type 0 where
  pub filled : is_empty w ≡ false
  pub solid : All (λ c. is_whitespace c ≡ false) w

abbrev AllSolid : Text → Type 0
AllSolid w = All (λ c. is_whitespace c ≡ false) w

pub trim_end-solid : (w : Text) → AllSolid w → trim_end w ≡ w
unfolding trim_end before_blanks
trim_end-solid [] solid = refl
trim_end-solid (c ∷ []) (h, solid) = rw h refl
trim_end-solid (c ∷ d ∷ w) (h, solid) = rw (trim_end-solid (d ∷ w) solid) refl

pub BeginsSolid-IsWord : (w : Text) → IsWord w → BeginsSolid w
BeginsSolid-IsWord [] word = cc (word.filled)
BeginsSolid-IsWord (c ∷ w) word = word.solid.0

pub IsTrimmed-IsWord : (w : Text) → IsWord w → IsTrimmed w
IsTrimmed-IsWord w word = record {
  starts = BeginsSolid-IsWord w word;
  ends = trim_end-solid w word.solid;
}

-- A word in front of a text is joined to what the text begins with.
word_and_rest-append :
    (w s word : Text) (words : List Text)
    → AllSolid w
    → word_and_rest s ≡ (word, words)
    → word_and_rest (w ++ s) ≡ (w ++ word, words)
unfolding word_and_rest
word_and_rest-append [] s word words solid h = h
word_and_rest-append (c ∷ w) s word words (h', solid) h =
    rw (word_and_rest-append w s word words solid h, h') refl

-- Words, each behind a blank.
unfoldable pub behind_blanks : List Text → Text
behind_blanks [] = []
behind_blanks (w ∷ ws) = 32 ∷ (w ++ behind_blanks ws)

close_word-filled :
    (w : Text) (words : List Text) → is_empty w ≡ false → close_word w words ≡ w ∷ words
close_word-filled [] words filled = cc
close_word-filled (c ∷ w) words filled = refl

pub append_nil : (w : Text) → w ++ [] ≡ w
append_nil [] = refl
append_nil (c ∷ w) = ap (λ s. c ∷ s) (append_nil w)

word_and_rest-behind_blanks :
    (ws : List Text) → All IsWord ws → word_and_rest (behind_blanks ws) ≡ ([], ws)
unfolding word_and_rest behind_blanks
word_and_rest-behind_blanks [] words = refl
word_and_rest-behind_blanks (w ∷ ws) (word, words) =
    rw
      (
        word_and_rest-append w (behind_blanks ws) [] ws word.solid
            (word_and_rest-behind_blanks ws words),
        append_nil w,
        close_word-filled w ws word.filled,
      )
      refl

pub split_whitespace-words :
    (w : Text) (ws : List Text)
    → IsWord w
    → All IsWord ws
    → split_whitespace (w ++ behind_blanks ws) ≡ w ∷ ws
unfolding split_whitespace
split_whitespace-words w ws word words =
    rw
      (
        word_and_rest-append w (behind_blanks ws) [] ws word.solid
            (word_and_rest-behind_blanks ws words),
        append_nil w,
      )
      (close_word-filled w ws word.filled)

pub filled_append : (s t : Text) → is_empty s ≡ false → is_empty (s ++ t) ≡ false
filled_append [] t filled = cc
filled_append (c ∷ s) t filled = refl

-- Words behind blanks end well.
pub trim_end-words :
    (w : Text) (ws : List Text)
    → IsWord w
    → All IsWord ws
    → trim_end (w ++ behind_blanks ws) ≡ w ++ behind_blanks ws
unfolding behind_blanks
trim_end-words w [] word words = rw (append_nil w) (trim_end-solid w word.solid)
trim_end-words w (v ∷ ws) word (word', words) =
    trim_end-append w (32 ∷ (v ++ behind_blanks ws)) refl (
      trim_end-append (32 ∷ []) (v ++ behind_blanks ws)
        (filled_append v (behind_blanks ws) word'.filled) (trim_end-words v ws word' words))

-- A concrete text is a word by evaluation.
all_solid : (s : Text) → all (λ c. not (is_whitespace c)) s ≡ true → AllSolid s
all_solid [] h = tt
all_solid (c ∷ s) h =
    let (first, rest) = both_true (not (is_whitespace c)) _ h in
    (not-true (is_whitespace c) first, all_solid s rest)

pub IsWord-of :
    (s : Text) → is_empty s ≡ false → all (λ c. not (is_whitespace c)) s ≡ true → IsWord s
IsWord-of s filled h = record { filled = filled; solid = all_solid s h }

pub contains-append : (s t p : Text) → contains t p ≡ true → contains (s ++ t) p ≡ true
unfolding contains
contains-append [] t p found = found
contains-append (c ∷ s) t p found =
    or_right (starts_with (c ∷ (s ++ t)) p) (contains-append s t p found)
