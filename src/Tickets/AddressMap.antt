-- ===== src/Tickets/AddressMap.antt =====
-- The map of recipients in `normalizeOutboundRecipients` of
-- apps/api/src/modules/tickets/tickets.service.ts, under one address.
use kayaka_style_hd.Prelude.{
  ◌≤◌, ◌<◌, ◌≡◌, refl, sym, subst, inl, inr, false, not, ◌&&◌, Option, none, some, List, [], ◌∷◌,
  arith, if◌then◌else◌, Bool-cases, All, All-append, find?, count_where, update_where, All-find?,
  count_where-append, count_where-update_where_same, find?-count_where,
}
use kayaka_style_hd.Common.Email.{Text}
use kayaka_style_hd.Common.Texts.{same_text_refl}
use kayaka_style_hd.Mail.Store.{Role, cc, Recipient}
use kayaka_style_hd.Tickets.Recipients.{is_bcc, has_email, put}

abbrev pub IsVisible : Recipient → Type 0
IsVisible r = is_bcc r.role ≡ false

pub put-IsVisible :
    (e : Text) (m : List Recipient) (o : Option Recipient)
    → find? (has_email e) m ≡ o
    → All IsVisible m
    → All IsVisible (put e cc m o)
unfolding put
put-IsVisible e m none f v =
    All-append IsVisible m (record { email = e; role = cc } ∷ []) v (refl, tt)
put-IsVisible e m (some old) f v =
    let seen = All-find? IsVisible (has_email e) m old v f in
    let no : (is_bcc old.role && not false) ≡ false = ground arith in
    subst
      (λ b.
        All IsVisible (if b then update_where (has_email e) (λ r. record r { role = cc }) m else m))
      (sym no) v

pub put-grows :
    (e x : Text) (role : Role) (m : List Recipient) (o : Option Recipient)
    → count_where (has_email x) m ≤ count_where (has_email x) (put e role m o)
unfolding put
put-grows e x role m none =
    omega (arith, count_where-append (has_email x) m (record { email = e; role = role } ∷ []))
put-grows e x role m (some old) =
    let same =
      count_where-update_where_same (has_email x) (has_email e) (λ r. record r { role = role }) m
        (λ r p. refl) in
    elim (Bool-cases (is_bcc old.role && not (is_bcc role))) [
      | inl t ↦ rw t (omega arith)
      | inr t ↦ rw t (omega arith)
    ]

pub put-found :
    (e : Text) (role : Role) (m : List Recipient) (o : Option Recipient)
    → find? (has_email e) m ≡ o
    → 0 < count_where (has_email e) (put e role m o)
unfolding put count_where
put-found e role m none f =
    let k = same_text_refl e in
    let one : count_where (has_email e) (record { email = e; role = role } ∷ []) ≡ 1 =
      rw k (omega arith) in
    omega (arith, count_where-append (has_email e) m (record { email = e; role = role } ∷ []))
put-found e role m (some old) f =
    omega (arith, find?-count_where (has_email e) m old f, put-grows e e role m (some old))
