-- ===== src/Base/Compare.antt =====
-- `strcmp` on the model's texts.
use telemetry_testbed.Base.{ℕ, ◌≡◌, refl, List, [], ◌∷◌, true, text_eq, arith}

-- Texts that compare as equal are equal.
pub text_eq-true : (a b : List ℕ) → text_eq a b ≡ true → a ≡ b
unfolding text_eq
text_eq-true [] [] h = refl
text_eq-true [] (y ∷ b) h = absurd (ground (arith, h))
text_eq-true (x ∷ a) [] h = absurd (ground (arith, h))
text_eq-true (x ∷ a) (y ∷ b) h =
    let first : x ≡ y = ground (arith, h) in
    let rest : text_eq a b ≡ true = ground (arith, h) in cc (first, text_eq-true a b rest)
