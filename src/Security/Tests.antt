-- ===== src/Security/Tests.antt =====
-- The caps on attachments at one upload.
use kayaka_style_hd.Prelude.{ok, ◌≡◌, refl, none, [], ◌∷◌, arith}
use kayaka_style_hd.Security.Capacity.{
  orphan_count, orphan_bytes, with_orphan_capacity, Attachment, CapacityConfig,
}
use kayaka_style_hd.Security.Orphans.{
  IsAnnounced, append_rows, Stored-IsWithin, empty, adopt, IsWithin,
}

abbrev small : CapacityConfig
small = record { min_free_disk_mb = 1; orphan_max_count = 2; orphan_max_size_mb = 1 }

abbrev upload : Attachment
upload = record { id = 1; size = 100; ticket_id = none; post_id = none; note_id = none }

upload-IsAnnounced : IsAnnounced 100 1 (upload ∷ [])
unfolding orphan_count orphan_bytes
upload-IsAnnounced = (omega arith, omega arith)

upload-ok :
    with_orphan_capacity small 2_000_000 100 1 (append_rows (upload ∷ [])) [] ≡ ok (upload ∷ [])
unfolding with_orphan_capacity
upload-ok = refl

Stored-IsWithin_example : IsWithin small (upload ∷ [])
Stored-IsWithin_example =
    Stored-IsWithin small
      (adopt (upload ∷ []) (upload ∷ []) 2_000_000 100 1 empty upload-IsAnnounced upload-ok)
