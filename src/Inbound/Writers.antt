-- ===== src/Inbound/Writers.antt =====
-- The other updates of deliveries in apps/api/src/modules/mail/inbound.service.ts: the owner that
-- `finalize` gives to the copies of a message, and the retention of raw messages.
use kayaka_style_hd.Prelude.{ℕ, Bool, false, ◌&&◌, none, some, ◌==◌, update_where}
use kayaka_style_hd.Inbound.Store.{
  of_ticket, processed, skipped, same_state, is_option, InboundDelivery, Ledger,
}
use kayaka_style_hd.Prelude.{◌||◌}

abbrev pub owned : ℕ → ℕ → InboundDelivery → InboundDelivery
owned now ticket d = record d {
  effective_owner_kind = of_ticket;
  effective_owner_ticket_id = some ticket;
  updated_at = now;
}

-- `finalize`, as far as it writes deliveries: `is_copy` tells the rows with the two hashes of the
-- message.
unfoldable pub adopt_copies : ℕ → (InboundDelivery → Bool) → ℕ → Ledger → Ledger
unfolding update_where
adopt_copies now is_copy ticket db = record db {
  deliveries = update_where is_copy (owned now ticket) db.deliveries;
}

abbrev pub is_terminal : InboundDelivery → Bool
is_terminal d = same_state d.state processed || same_state d.state skipped

abbrev pub without_raw_mime : ℕ → InboundDelivery → InboundDelivery
without_raw_mime now d = record d { has_raw_mime = false; updated_at = now }

-- `pruneRawMime`: `is_old` tells the rows past the retention that are not pruned yet.
unfoldable pub prune_raw_mime : ℕ → (InboundDelivery → Bool) → Ledger → Ledger
unfolding update_where
prune_raw_mime now is_old db = record db {
  deliveries = update_where (λ d. is_terminal d && is_old d) (without_raw_mime now) db.deliveries;
}

abbrev pub without_key : ℕ → InboundDelivery → InboundDelivery
without_key now d = record d { raw_storage_key = none; updated_at = now }

-- `cleanupPrunedRawStorage`, for one row whose file is removed.
unfoldable pub forget_raw_storage : ℕ → (id key : ℕ) → Ledger → Ledger
unfolding update_where
forget_raw_storage now id key db = record db {
  deliveries =
      update_where (λ d. d.id == id && is_option d.raw_storage_key key) (without_key now)
        db.deliveries;
}
