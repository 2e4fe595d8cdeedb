-- ===== src/Text/Equal.antt =====
-- `text_eq` decides whether two texts are the same.
use sserver.Prelude.{◌≡◌, refl, ap₂, true, [], ◌∷◌, arith}
use sserver.Text.{Text, text_eq}

pub text_eq_refl : (a : Text) → text_eq a a ≡ true
unfolding text_eq
text_eq_refl [] = refl
text_eq_refl (c ∷ cs) = rw (text_eq_refl cs) (ground arith)

pub text_eq_sound : (a b : Text) → text_eq a b ≡ true → a ≡ b
unfolding text_eq
text_eq_sound [] [] e = refl
text_eq_sound [] (d ∷ ds) e = absurd (cc)
text_eq_sound (c ∷ cs) [] e = absurd (cc)
text_eq_sound (c ∷ cs) (d ∷ ds) e =
    ap₂ ◌∷◌ (ground (arith, e)) (text_eq_sound cs ds (ground (arith, e)))
