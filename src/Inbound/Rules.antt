-- ===== src/Inbound/Rules.antt =====
-- Parser rules, the sender of a reply and addresses in apps/api/src/modules/mail/inbound.service.ts:
-- `applyParserRules`, `evaluateCriteria`, `matchCriterion`, `extractField`, `senderCanReply`,
-- `isPlausibleEmail`. `lower` is `toLowerCase`, and `search` is `new RegExp(…, 'i').test`, which is
-- false where the pattern does not compile.
use kayaka_style_hd.Prelude.{
  ℕ, Bool, true, false, not, ◌&&◌, ◌||◌, Option, none, some, List, [], ◌∷◌, ◌++◌, ◌==◌,
  if◌then◌else◌, any, all,
}
use kayaka_style_hd.Common.Email.{Text, same_text, is_empty, normalize_email}
use kayaka_style_hd.Inbound.Patterns.{is_safe_rule_regex}

pub record ParsedEmail : Type 0 where
  pub subject : Text
  pub from_email : Text
  pub from_name : Text
  pub to_email : Option Text
  pub body : Text

pub data Field : Type 0 where
  subject_field sender sender_name recipient body_field unknown_field : Field

pub data Operator : Type 0 where
  eq contains not_contains starts_with ends_with regex unknown_op : Operator

pub record Criterion : Type 0 where
  pub field : Field
  pub op : Operator
  pub value : Text

-- An action with its value; a number where the source makes one of it, `none` where it is left out.
pub data RuleAction : Type 0 where
  ignore : RuleAction
  route_dept set_priority assign_staff : Option ℕ → RuleAction
  add_tag : Text → RuleAction
  other_action : RuleAction

pub record ParserRule : Type 0 where
  pub criteria : List Criterion
  pub actions : List RuleAction
  pub matches_any : Bool
  pub stop_processing : Bool

pub record ParserRuleResult : Type 0 where
  pub skip : Bool
  pub department_id : Option ℕ
  pub priority_id : Option ℕ
  pub owner_staff_id : Option ℕ
  pub tags : List Text

pub record Matching : Type 0 where
  pub lower : Text → Text
  pub search : Text → Text → Bool

abbrev pub text_or_empty : Option Text → Text
text_or_empty none = []
text_or_empty (some t) = t

unfoldable pub extract_field : ParsedEmail → Field → Text
extract_field p subject_field = p.subject
extract_field p sender = p.from_email
extract_field p sender_name = p.from_name
extract_field p recipient = text_or_empty p.to_email
extract_field p body_field = p.body
extract_field p unknown_field = []

unfoldable pub is_prefix : Text → Text → Bool
is_prefix [] t = true
is_prefix (c ∷ s) [] = false
is_prefix (c ∷ s) (d ∷ t) = c == d && is_prefix s t

unfoldable pub is_infix : Text → Text → Bool
unfolding is_prefix
is_infix s [] = is_empty s
is_infix s (d ∷ t) = is_prefix s (d ∷ t) || is_infix s t

unfoldable pub is_suffix : Text → Text → Bool
is_suffix s [] = is_empty s
is_suffix s (d ∷ t) = same_text s (d ∷ t) || is_suffix s t

abbrev pub match_op : Matching → Operator → Text → Text → Bool
unfolding is_prefix is_infix is_suffix is_safe_rule_regex
match_op m eq v t = same_text (m.lower v) (m.lower t)
match_op m contains v t = is_infix (m.lower t) (m.lower v)
match_op m not_contains v t = not (is_infix (m.lower t) (m.lower v))
match_op m starts_with v t = is_prefix (m.lower t) (m.lower v)
match_op m ends_with v t = is_suffix (m.lower t) (m.lower v)
match_op m regex v t = is_safe_rule_regex t && m.search t v
match_op m unknown_op v t = false

unfoldable pub match_criterion : Matching → ParsedEmail → Criterion → Bool
unfolding extract_field match_op
match_criterion m p c = match_op m c.op (extract_field p c.field) c.value

abbrev pub is_no_criterion : List Criterion → Bool
is_no_criterion [] = true
is_no_criterion (c ∷ cs) = false

unfoldable pub evaluate_criteria : Matching → ParsedEmail → List Criterion → Bool → Bool
unfolding match_criterion
evaluate_criteria m p cs matches_any =
    is_no_criterion cs
    || (if matches_any then any (match_criterion m p) cs else all (match_criterion m p) cs)

abbrev pub keep_or : Option ℕ → Option ℕ → Option ℕ
keep_or none old = old
keep_or (some n) old = some n

unfoldable pub apply_action : RuleAction → ParserRuleResult → ParserRuleResult
apply_action ignore r = record r { skip = true }
apply_action (route_dept v) r = record r { department_id = keep_or v r.department_id }
apply_action (set_priority v) r = record r { priority_id = keep_or v r.priority_id }
apply_action (assign_staff v) r = record r { owner_staff_id = keep_or v r.owner_staff_id }
apply_action (add_tag t) r = record r { tags = if is_empty t then r.tags else r.tags ++ t ∷ [] }
apply_action other_action r = r

unfoldable pub apply_actions : List RuleAction → ParserRuleResult → ParserRuleResult
unfolding apply_action
apply_actions [] r = r
apply_actions (a ∷ rest) r = apply_actions rest (apply_action a r)

-- The loop over the enabled rules in their order.
unfoldable pub apply_rules :
    Matching → ParsedEmail → List ParserRule → ParserRuleResult → ParserRuleResult
unfolding evaluate_criteria apply_actions
apply_rules m p [] r = r
apply_rules m p (rule ∷ rules) r =
    let skipped = apply_rules m p rules r in
    let applied = apply_actions rule.actions r in
    let next = apply_rules m p rules applied in
    if evaluate_criteria m p rule.criteria rule.matches_any
    then (if rule.stop_processing then applied else next)
    else skipped

unfoldable pub apply_parser_rules : Matching → ParsedEmail → List ParserRule → ParserRuleResult
unfolding apply_rules
apply_parser_rules m p rules = apply_rules m p rules record {
  skip = false;
  department_id = none;
  priority_id = none;
  owner_staff_id = none;
  tags = [];
}

-- The people of a ticket, as far as a reply needs them.
pub record ThreadableTicket : Type 0 where
  pub requester_email : Option Text
  pub user_emails : List Text
  pub recipients : List Text

abbrev pub is_sender : (Text → Text) → Text → Text → Bool
unfolding normalize_email
is_sender lower from e = not (is_empty e) && same_text (normalize_email lower e) from

unfoldable pub sender_can_reply : (Text → Text) → ThreadableTicket → Text → Bool
unfolding normalize_email is_sender
sender_can_reply lower t from_email =
    let from = normalize_email lower from_email in
    not (is_empty from)
    && (is_sender lower from (text_or_empty t.requester_email)
        || any (is_sender lower from) t.user_emails
        || any (is_sender lower from) t.recipients)
