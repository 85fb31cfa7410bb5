-- ===== src/Common/Texts.antt =====
-- The equality test of texts.
use kayaka_style_hd.Prelude.{◌≡◌, refl, true, [], ◌∷◌, arith}
use kayaka_style_hd.Common.Email.{Text, same_text}

pub same_text_refl : (t : Text) → same_text t t ≡ true
same_text_refl [] = refl
same_text_refl (c ∷ t) = ground (arith, same_text_refl t)

pub same_text-eq : (s t : Text) → same_text s t ≡ true → s ≡ t
same_text-eq [] [] h = refl
same_text-eq [] (d ∷ t) h = absurd (ground arith)
same_text-eq (c ∷ s) [] h = absurd (ground arith)
same_text-eq (c ∷ s) (d ∷ t) h =
    let rest = same_text-eq s t (ground arith) in
    let first : c ≡ d = ground arith in rw (first, rest) refl
