-- ===== src/Tickets/Recipients.antt =====
-- `normalizeOutboundRecipients` and `assertOutboundAttachmentBounds` of
-- apps/api/src/modules/tickets/tickets.service.ts. `lower` is `toLowerCase`, and `is_address` the test
-- of the regular expression for addresses.
use kayaka_style_hd.Prelude.{
  Outcome, ok, ◌>>=◌, ◌>>◌, require, ℕ, ◌+◌, Bool, true, false, not, ◌&&◌, Option, none, some, List,
  [], ◌∷◌, ◌++◌, leb, if◌then◌else◌, length, find?, update_where,
}
use kayaka_style_hd.Common.Email.{Text, same_text, is_empty, normalize_email}
use kayaka_style_hd.Mail.Store.{Role, to, cc, bcc, Recipient}

pub data RecipientError : Type 0 where
  invalid_requester missing_requester too_many_attachments : RecipientError

abbrev pub is_bcc : Role → Bool
is_bcc bcc = true
is_bcc _ = false

abbrev pub has_email : Text → Recipient → Bool
has_email e r = same_text r.email e

-- The map under the new role of one normalized address.
unfoldable pub put : Text → Role → List Recipient → Option Recipient → List Recipient
unfolding update_where
put e role m none = m ++ record { email = e; role = role } ∷ []
put e role m (some old) =
    if is_bcc old.role && not (is_bcc role)
    then update_where (has_email e) (λ r. record r { role = role }) m
    else m

abbrev pub is_usable : (Text → Text) → (Text → Bool) → Text → Bool
unfolding normalize_email
is_usable lower is_address e = not (is_empty e) && is_address (normalize_email lower e)

-- `add`, for an address that is not the requester's.
unfoldable pub add_copy :
    (Text → Text) → (Text → Bool) → Role → Text → List Recipient → List Recipient
unfolding normalize_email find? put is_usable
add_copy lower is_address role email m =
    let e = normalize_email lower email in
    if is_usable lower is_address email then put e role m (find? (has_email e) m) else m

unfoldable pub add_copies :
    (Text → Text) → (Text → Bool) → Role → List Text → List Recipient → List Recipient
unfolding add_copy
add_copies lower is_address role [] m = m
add_copies lower is_address role (e ∷ es) m =
    add_copies lower is_address role es (add_copy lower is_address role e m)

-- The requester's address, first of all; without it there is no reply.
unfoldable pub requester_recipient :
    (Text → Text) → (Text → Bool) → Text → Outcome RecipientError (List Recipient)
unfolding normalize_email
requester_recipient lower is_address requester =
    require (not (is_empty requester)) missing_requester
    >> (require (is_address (normalize_email lower requester)) invalid_requester
        >> ok (record { email = normalize_email lower requester; role = to } ∷ []))

-- `cc_emails` and `bcc_emails` are the addresses of the reply and then those of the ticket.
unfoldable pub normalize_outbound_recipients :
    (Text → Text)
    → (Text → Bool)
    → Text
    → (cc_emails bcc_emails : List Text) → Outcome RecipientError (List Recipient)
unfolding requester_recipient add_copies
normalize_outbound_recipients lower is_address requester cc_emails bcc_emails =
    requester_recipient lower is_address requester >>= λ m.
    ok (add_copies lower is_address bcc bcc_emails (add_copies lower is_address cc cc_emails m))

unfoldable pub total_bytes : List ℕ → ℕ
total_bytes [] = 0
total_bytes (n ∷ ns) = n + total_bytes ns

-- For the sizes of the attachments.
unfoldable pub assert_outbound_attachment_bounds : List ℕ → Outcome RecipientError (Unit {0})
unfolding total_bytes
assert_outbound_attachment_bounds sizes =
    require (leb (length sizes) 10 && leb (total_bytes sizes) 26_214_400) too_many_attachments
