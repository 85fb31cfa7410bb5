-- ===== src/Tickets/RecipientTests.antt =====
-- The recipients of one staff reply.
use kayaka_style_hd.Prelude.{ok, ◌≡◌, refl, true, false, List, [], ◌∷◌, All, keep}
use kayaka_style_hd.Common.Email.{same_text, normalize_email}
use kayaka_style_hd.Mail.Store.{to, cc, bcc, Recipient}
use kayaka_style_hd.Tickets.Recipients.{is_bcc, is_usable, normalize_outbound_recipients}
use kayaka_style_hd.Tickets.Copies.{bcc_apart}

abbrev reply_recipients : List Recipient
reply_recipients =
    record { email = 97 ∷ []; role = to }
    ∷ record { email = 98 ∷ []; role = cc }
    ∷ record { email = 99 ∷ []; role = bcc }
    ∷ []

reply-ok :
    normalize_outbound_recipients
      (λ t. t)
      (λ t. true)
      (97 ∷ [])
      ((98 ∷ []) ∷ [])
      ((98 ∷ []) ∷ (99 ∷ []) ∷ [])
    ≡ ok reply_recipients
unfolding normalize_outbound_recipients
reply-ok = refl

bcc_apart_example :
    All
      (λ r.
        All
          (λ e. same_text (normalize_email (λ t. t) e) r.email ≡ false)
          (keep (is_usable (λ t. t) (λ t. true)) ((98 ∷ []) ∷ [])))
      (keep (λ r. is_bcc r.role) reply_recipients)
bcc_apart_example =
    bcc_apart (λ t. t) (λ t. true) (97 ∷ []) ((98 ∷ []) ∷ []) ((98 ∷ []) ∷ (99 ∷ []) ∷ [])
      reply_recipients reply-ok
