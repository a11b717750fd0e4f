-- ===== src/Text/Laws.antt =====
-- Laws of the text operations.
use oxcer_agent.Prelude.{◌≡◌, refl, ap, ◌↔◌, true, false, [], ◌∷◌, Bool-cases, inl, inr, arith}
use oxcer_agent.Text.{Text, text_eq, starts_with, contains, replace_from, replace}

pub text_eq_refl : (s : Text) → text_eq s s ≡ true
unfolding text_eq
text_eq_refl [] = refl
text_eq_refl (a ∷ s) = ground (arith, text_eq_refl s)

pub text_eq_sound : (s t : Text) → text_eq s t ≡ true → s ≡ t
unfolding text_eq
text_eq_sound [] [] h = refl
text_eq_sound (a ∷ s) (b ∷ t) h = ground (arith, text_eq_sound s t)
text_eq_sound [] (b ∷ t) h = cc
text_eq_sound (a ∷ s) [] h = cc

pub text_eq_iff : (s t : Text) → (text_eq s t ≡ true) ↔ (s ≡ t)
text_eq_iff s t = (text_eq_sound s t, λ e. rw e (text_eq_refl t))

-- Replacing a text that does not occur changes nothing.
pub replace-absent : (s p by : Text) → contains s p ≡ false → replace s p by ≡ s
unfolding contains replace replace_from
replace-absent [] p by absent = refl
replace-absent (c ∷ s) p by absent = elim (Bool-cases (starts_with (c ∷ s) p)) [
  | inl e ↦ let present = rw e at absent in cc
  | inr e ↦ rw e (ap (λ rest. c ∷ rest) (replace-absent s p by (rw e at absent)))
]
