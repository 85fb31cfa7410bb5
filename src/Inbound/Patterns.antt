-- ===== src/Inbound/Patterns.antt =====
-- `isSafeRuleRegex` of apps/api/src/modules/mail/inbound.service.ts: the scan of a rule's pattern. A
-- character is its UTF-16 code unit.
use kayaka_style_hd.Prelude.{
  ℕ, ◌+◌, Bool, true, false, not, ◌&&◌, ◌||◌, Option, none, some, [], ◌∷◌, leb, ◌==◌, if◌then◌else◌,
  length,
}
use kayaka_style_hd.Common.Email.{Text, is_empty}

-- The state of the scan.
pub record Scan : Type 0 where
  pub escaped : Bool
  pub in_class : Bool
  pub class_has_character : Bool
  pub can_quantify : Bool
  pub quantifiers : ℕ
  pub has_unbounded_quantifier : Bool

-- A digit, `k`, `p` or `P`.
abbrev pub is_refused_escape : ℕ → Bool
is_refused_escape c = leb 48 c && leb c 57 || c == 107 || c == 112 || c == 80

-- One of `()|{}`.
abbrev pub is_refused : ℕ → Bool
is_refused c = c == 40 || c == 41 || c == 124 || c == 123 || c == 125

-- One of `*+?`.
abbrev pub is_quantifier : ℕ → Bool
is_quantifier c = c == 42 || c == 43 || c == 63

abbrev pub is_unbounded : ℕ → Bool
is_unbounded c = c == 42 || c == 43

abbrev pub scan_escaped : ℕ → Scan → Option Scan
scan_escaped c s =
    if is_refused_escape c
    then none
    else (if s.in_class
        then some (record s { escaped = false; class_has_character = true })
        else some (record s { escaped = false; can_quantify = true }))

abbrev pub scan_class : ℕ → Scan → Option Scan
scan_class c s =
    if c == 93
    then (if s.class_has_character
        then some (record s { in_class = false; can_quantify = true })
        else none)
    else some (record s { class_has_character = true })

abbrev pub scan_quantifier : ℕ → Scan → Option Scan
scan_quantifier c s =
    if not s.can_quantify || leb 1 s.quantifiers
    then none
    else some (record s {
      quantifiers = s.quantifiers + 1;
      has_unbounded_quantifier = is_unbounded c || s.has_unbounded_quantifier;
      can_quantify = false;
    })

abbrev pub scan_plain : ℕ → Scan → Option Scan
scan_plain c s =
    if c == 91
    then some (record s { in_class = true; class_has_character = false; can_quantify = false })
    else if is_refused c
    then none
    else if is_quantifier c
    then scan_quantifier c s
    else if c == 94 || c == 36
    then some (record s { can_quantify = false })
    else some (record s { can_quantify = true })

-- One round of the loop.
unfoldable pub scan_char : ℕ → Scan → Option Scan
scan_char c s =
    if s.escaped
    then scan_escaped c s
    else if c == 92
    then some (record s { escaped = true })
    else if s.in_class
    then scan_class c s
    else scan_plain c s

abbrev pub and_then : Option Scan → (Scan → Option Scan) → Option Scan
and_then none f = none
and_then (some s) f = f s

unfoldable pub scan : Text → Scan → Option Scan
unfolding scan_char
scan [] s = some s
scan (c ∷ t) s = and_then (scan_char c s) (scan t)

abbrev pub first_scan : Scan
first_scan = record {
  escaped = false;
  in_class = false;
  class_has_character = false;
  can_quantify = false;
  quantifiers = 0;
  has_unbounded_quantifier = false;
}

abbrev pub starts_at_line : Text → Bool
starts_at_line [] = false
starts_at_line (c ∷ t) = c == 94

abbrev pub is_accepted : Text → Option Scan → Bool
is_accepted t none = false
is_accepted t (some s) =
    not s.escaped && not s.in_class && (not s.has_unbounded_quantifier || starts_at_line t)

unfoldable pub is_safe_rule_regex : Text → Bool
unfolding scan
is_safe_rule_regex t = not (is_empty t) && leb (length t) 128 && is_accepted t (scan t first_scan)

-- The operators of a pattern, as a reader of regular expressions finds them: what stands neither
-- behind a backslash nor in brackets.
unfoldable pub operators : (escaped in_class : Bool) → Text → Text
operators escaped in_class [] = []
operators true in_class (c ∷ t) = operators false in_class t
operators false true (c ∷ t) =
    let inside = operators false true t in
    let outside = operators false false t in
    let behind = operators true true t in
    if c == 92 then behind else if c == 93 then outside else inside
operators false false (c ∷ t) =
    let behind = operators true false t in
    let inside = operators false true t in
    let next = operators false false t in
    if c == 92 then behind else if c == 91 then inside else c ∷ next
