-- ===== src/Inbound/SafePatterns.antt =====
-- What `isSafeRuleRegex` of apps/api/src/modules/mail/inbound.service.ts keeps of a pattern.
use kayaka_style_hd.Prelude.{
  ℕ, ◌+◌, ◌≤◌, ◌≡◌, refl, sym, ap, ◌∙◌, subst, inl, inr, Bool, true, false, not, ◌&&◌, ◌||◌, some,
  [], ◌∷◌, arith, ◌==◌, if◌then◌else◌, Bool-cases, Option-cases, length, any, count_where,
}
use kayaka_style_hd.Common.Email.{Text}
use kayaka_style_hd.Inbound.Patterns.{
  is_refused, is_quantifier, is_unbounded, scan_escaped, scan_class, scan_quantifier, scan_plain,
  scan_char, scan, first_scan, starts_at_line, is_safe_rule_regex, operators, Scan,
}

abbrev pub operators_of : Scan → Text → Text
unfolding operators
operators_of s t = operators s.escaped s.in_class t

-- One round of the scan against the reader's operators.
pub record Round (c : ℕ) (s m : Scan) : Type 0 where
  pub emits : Bool
  pub read :
      (t : Text)
      → operators s.escaped s.in_class (c ∷ t)
        ≡ (if emits then c ∷ operators m.escaped m.in_class t else operators m.escaped m.in_class t)
  pub allowed : (emits && is_refused c) ≡ false
  pub counted : m.quantifiers ≡ s.quantifiers + (if emits && is_quantifier c then 1 else 0)
  pub noted : m.has_unbounded_quantifier ≡ (s.has_unbounded_quantifier || emits && is_unbounded c)
  pub few : s.quantifiers ≤ 1 → m.quantifiers ≤ 1

escaped-Round : (c : ℕ) (s m : Scan) → s.escaped ≡ true → scan_escaped c s ≡ some m → Round c s m
unfolding operators
escaped-Round c s m x h = record {
  emits = false;
  read = λ t. ground arith;
  allowed = refl;
  counted = ground arith;
  noted = ground arith;
  few = λ l. ground arith;
}

backslash-Round :
    (c : ℕ) (s : Scan)
    → s.escaped ≡ false
    → (c == 92) ≡ true
    → Round c s (record s { escaped = true })
unfolding operators
backslash-Round c s x h = record {
  emits = false;
  read =
      λ t. elim (Bool-cases s.in_class) [ inl e ↦ rw (x, e, h) refl | inr e ↦ rw (x, e, h) refl ];
  allowed = refl;
  counted = omega arith;
  noted = ground arith;
  few = λ l. l;
}

class-Round :
    (c : ℕ) (s m : Scan)
    → s.escaped ≡ false
    → (c == 92) ≡ false
    → s.in_class ≡ true
    → scan_class c s ≡ some m
    → Round c s m
unfolding operators
class-Round c s m x b i h = record {
  emits = false;
  read = λ t. ground arith;
  allowed = refl;
  counted = ground arith;
  noted = ground arith;
  few = λ l. ground arith;
}

quantifier-Round :
    (c : ℕ) (s m : Scan)
    → s.escaped ≡ false
    → (c == 92) ≡ false
    → s.in_class ≡ false
    → (c == 91) ≡ false
    → is_refused c ≡ false
    → is_quantifier c ≡ true
    → scan_quantifier c s ≡ some m
    → Round c s m
unfolding operators
quantifier-Round c s m x b i o r q h = record {
  emits = true;
  read = λ t. ground arith;
  allowed = r;
  counted = rw q (ground arith);
  noted = ground arith;
  few = λ l. ground arith;
}

plain-Round :
    (c : ℕ) (s m : Scan)
    → s.escaped ≡ false
    → (c == 92) ≡ false
    → s.in_class ≡ false
    → scan_plain c s ≡ some m
    → Round c s m
unfolding operators
plain-Round c s m x b i h = elim (Bool-cases (c == 91)) [
  | inl o ↦ record {
    emits = false;
    read = λ t. ground arith;
    allowed = refl;
    counted = ground arith;
    noted = ground arith;
    few = λ l. ground arith;
  }
  | inr o ↦ elim (Bool-cases (is_refused c)) [
    | inl r ↦ absurd (let k = rw (o, r) at h in cc)
    | inr r ↦ elim (Bool-cases (is_quantifier c)) [
      | inl q ↦ quantifier-Round c s m x b i o r q (rw (o, r, q) at h)
      | inr q ↦
          let k = rw (o, r, q) at h in
          let u : is_unbounded c ≡ false = ground arith in
          record {
            emits = true;
            read = λ t. ground arith;
            allowed = r;
            counted = rw q (ground arith);
            noted = rw u (ground arith);
            few = λ l. ground arith;
          }
    ]
  ]
]

if_true {ℓ} : {A : Type ℓ} {b : Bool} (x y : A) → b ≡ true → (if b then x else y) ≡ x
if_true x y e = rw e refl

if_false {ℓ} : {A : Type ℓ} {b : Bool} (x y : A) → b ≡ false → (if b then x else y) ≡ y
if_false x y e = rw e refl

char-Round : (c : ℕ) (s m : Scan) → scan_char c s ≡ some m → Round c s m
unfolding scan_char
char-Round c s m h =
    let inner = if s.in_class then scan_class c s else scan_plain c s in
    let rest = if c == 92 then some (record s { escaped = true }) else inner in
    elim (Bool-cases s.escaped) [
      | inl x ↦ escaped-Round c s m x (sym (if_true (scan_escaped c s) rest x) ∙ h)
      | inr x ↦
          let h1 = sym (if_false (scan_escaped c s) rest x) ∙ h in
          elim (Bool-cases (c == 92)) [
            | inl b ↦
                let one : some (record s { escaped = true }) ≡ some m =
                  sym (if_true (some (record s { escaped = true })) inner b) ∙ h1 in
                let same : record s { escaped = true } ≡ m = cc in
                subst (Round c s) same (backslash-Round c s x b)
            | inr b ↦
                let h2 = sym (if_false (some (record s { escaped = true })) inner b) ∙ h1 in
                elim (Bool-cases s.in_class) [
                  | inl i ↦
                      class-Round c s m x b i
                        (sym (if_true (scan_class c s) (scan_plain c s) i) ∙ h2)
                  | inr i ↦
                      plain-Round c s m x b i
                        (sym (if_false (scan_class c s) (scan_plain c s) i) ∙ h2)
                ]
          ]
    ]

-- The whole scan against the operators of the pattern.
pub record Reads (t : Text) (s end : Scan) : Type 0 where
  pub allowed : any is_refused (operators s.escaped s.in_class t) ≡ false
  pub counted :
      end.quantifiers ≡ s.quantifiers + count_where is_quantifier (operators s.escaped s.in_class t)
  pub noted :
      end.has_unbounded_quantifier
      ≡ (s.has_unbounded_quantifier || any is_unbounded (operators s.escaped s.in_class t))
  pub few : s.quantifiers ≤ 1 → end.quantifiers ≤ 1

silent-Reads :
    (c : ℕ) (t : Text) (s m end : Scan) (r : Round c s m)
    → r.emits ≡ false
    → Reads t m end
    → Reads (c ∷ t) s end
silent-Reads c t s m end r e k =
    let same : operators s.escaped s.in_class (c ∷ t) ≡ operators m.escaped m.in_class t =
      let o = r.read t in simp e at o in
    let n : m.quantifiers ≡ s.quantifiers + 0 = let o = r.counted in simp e at o in
    let u = let o = r.noted in simp e at o in
    record {
      allowed = ap (any is_refused) same ∙ k.allowed;
      counted = let a = k.counted in let b = ap (count_where is_quantifier) same in omega arith;
      noted = let b = ap (any is_unbounded) same in let a = k.noted in ground (arith);
      few = λ l. k.few (r.few l);
    }

loud-Reads :
    (c : ℕ) (t : Text) (s m end : Scan) (r : Round c s m)
    → r.emits ≡ true
    → Reads t m end
    → Reads (c ∷ t) s end
unfolding count_where
loud-Reads c t s m end r e k =
    let same : operators s.escaped s.in_class (c ∷ t) ≡ c ∷ operators m.escaped m.in_class t =
      r.read t
      ∙ if_true (c ∷ operators m.escaped m.in_class t) (operators m.escaped m.in_class t) e in
    let free : is_refused c ≡ false = let o = r.allowed in simp e at o in
    let n : m.quantifiers ≡ s.quantifiers + (if is_quantifier c then 1 else 0) =
      let o = r.counted in simp e at o in
    let u : m.has_unbounded_quantifier ≡ (s.has_unbounded_quantifier || is_unbounded c) =
      let o = r.noted in simp e at o in
    record {
      allowed = let b = ap (any is_refused) same in let a = k.allowed in ground (arith);
      counted = let a = k.counted in let b = ap (count_where is_quantifier) same in omega arith;
      noted = let b = ap (any is_unbounded) same in let a = k.noted in ground (arith);
      few = λ l. k.few (r.few l);
    }

scan-Reads : (t : Text) (s end : Scan) → scan t s ≡ some end → Reads t s end
unfolding scan operators count_where
scan-Reads [] s end h = record {
  allowed = refl;
  counted = let e : s ≡ end = cc in let q = ap (λ x. x.quantifiers) e in omega arith;
  noted = let e : s ≡ end = cc in let u = ap (λ x. x.has_unbounded_quantifier) e in ground arith;
  few = λ l. let e : s ≡ end = cc in let q = ap (λ x. x.quantifiers) e in omega arith;
}
scan-Reads (c ∷ t) s end h = elim (Option-cases (scan_char c s)) [
  | inl n ↦ absurd (let k = rw n at h in cc)
  | inr (m, e) ↦
      let r = char-Round c s m e in
      let k = scan-Reads t m end (rw e at h) in
      elim (Bool-cases r.emits) [
        | inl y ↦ loud-Reads c t s m end r y k
        | inr y ↦ silent-Reads c t s m end r y k
      ]
]

-- A rule's pattern that is run has at most 128 characters; outside brackets and escapes it has no
-- group, alternation or braces and at most one quantifier, and an unbounded one only where the pattern
-- starts with `^`.
pub is_safe_rule_regex-operators :
    (t : Text)
    → is_safe_rule_regex t ≡ true
    → (length t ≤ 128)
      × (any is_refused (operators false false t) ≡ false)
      × (count_where is_quantifier (operators false false t) ≤ 1)
      × ((not (any is_unbounded (operators false false t)) || starts_at_line t) ≡ true)
unfolding is_safe_rule_regex
is_safe_rule_regex-operators t h = elim (Option-cases (scan t first_scan)) [
  | inl n ↦ absurd (let k = rw n at h in ground arith)
  | inr (m, e) ↦
      let k = rw e at h in
      let f = scan-Reads t first_scan m e in
      let l = f.few (omega arith) in
      let q = f.counted in let u = f.noted in (ground arith, f.allowed, omega arith, ground arith)
]
