-- ===== src/Security/Capacity.antt =====
-- apps/api/src/security/attachment-capacity.service.ts: the caps on attachments that belong to nothing.
-- Sizes and counts are natural numbers; the free space of the disk is an argument.
use kayaka_style_hd.Prelude.{
  Outcome, ◌>>◌, require, ℕ, ◌+◌, ◌*◌, Bool, ◌&&◌, Option, List, [], ◌∷◌, leb, if◌then◌else◌,
  is_none, count_where,
}

abbrev pub mib : ℕ
mib = 1_048_576

pub record Attachment : Type 0 where
  pub id : ℕ
  pub size : ℕ
  pub ticket_id : Option ℕ
  pub post_id : Option ℕ
  pub note_id : Option ℕ

pub record CapacityConfig : Type 0 where
  pub min_free_disk_mb : ℕ
  pub orphan_max_count : ℕ
  pub orphan_max_size_mb : ℕ

pub data CapacityError : Type 0 where
  storage_unavailable : CapacityError

abbrev pub is_orphan : Attachment → Bool
is_orphan a = is_none a.ticket_id && is_none a.post_id && is_none a.note_id

unfoldable pub orphan_count : List Attachment → ℕ
unfolding count_where
orphan_count = count_where is_orphan

unfoldable pub orphan_bytes : List Attachment → ℕ
orphan_bytes [] = 0
orphan_bytes (a ∷ rows) = (if is_orphan a then a.size else 0) + orphan_bytes rows

-- `assertFreeDisk`, for the available bytes of the file system.
unfoldable pub assert_free_disk : CapacityConfig → ℕ → ℕ → Outcome CapacityError (Unit {0})
assert_free_disk c available incoming =
    require (leb (c.min_free_disk_mb * mib + incoming) available) storage_unavailable

unfoldable pub assert_orphan_capacity :
    CapacityConfig → List Attachment → ℕ → ℕ → Outcome CapacityError (Unit {0})
unfolding orphan_count orphan_bytes
assert_orphan_capacity c rows bytes count =
    require
      (leb (orphan_count rows + count) c.orphan_max_count
        && leb (orphan_bytes rows + bytes) (c.orphan_max_size_mb * mib))
      storage_unavailable

-- `assertCanAccept`
unfoldable pub assert_can_accept :
    CapacityConfig
    → ℕ
    → List Attachment
    → (bytes count not_yet_on_disk : ℕ) → Outcome CapacityError (Unit {0})
unfolding assert_free_disk assert_orphan_capacity
assert_can_accept c available rows bytes count not_yet_on_disk =
    require (leb 1 count && leb not_yet_on_disk bytes) storage_unavailable
    >> (assert_free_disk c available not_yet_on_disk >> assert_orphan_capacity c rows bytes count)

-- `withOrphanCapacity`: the operation on the table, under the lock that one transaction holds.
unfoldable pub with_orphan_capacity :
    CapacityConfig
    → ℕ
    → (bytes count : ℕ) → (List Attachment → Outcome CapacityError (List Attachment))
    → List Attachment
    → Outcome CapacityError (List Attachment)
unfolding assert_free_disk assert_orphan_capacity
with_orphan_capacity c available bytes count operation rows =
    require (leb 1 count) storage_unavailable
    >> (assert_free_disk c available 0
        >> (assert_orphan_capacity c rows bytes count >> operation rows))
