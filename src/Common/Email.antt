-- ===== src/Common/Email.antt =====
-- apps/api/src/common/email.util.ts. A text is the list of its UTF-16 code units.
use kayaka_style_hd.Prelude.{
  ℕ, Bool, true, false, ◌&&◌, ◌||◌, List, [], ◌∷◌, leb, ◌==◌, if◌then◌else◌,
}

abbrev pub Text : Type 0
Text = List ℕ

abbrev pub same_text : Text → Text → Bool
same_text [] [] = true
same_text [] (d ∷ t) = false
same_text (c ∷ s) [] = false
same_text (c ∷ s) (d ∷ t) = c == d && same_text s t

abbrev pub is_empty : Text → Bool
is_empty [] = true
is_empty (c ∷ s) = false

-- The bytes that PostgreSQL's `btrim` strips: space, and the control characters 9 to 13.
abbrev pub is_blank : ℕ → Bool
is_blank c = c == 32 || leb 9 c && leb c 13

unfoldable pub trim_left : Text → Text
trim_left [] = []
trim_left (c ∷ s) = if is_blank c then trim_left s else c ∷ s

-- A text without its blanks at the end.
unfoldable pub trim_right : Text → Text
trim_right [] = []
trim_right (c ∷ s) = let rest = trim_right s in if is_blank c && is_empty rest then [] else c ∷ rest

-- `lower` is `String.prototype.toLowerCase`.
unfoldable pub normalize_email : (Text → Text) → Text → Text
unfolding trim_left trim_right
normalize_email lower s = lower (trim_right (trim_left s))
