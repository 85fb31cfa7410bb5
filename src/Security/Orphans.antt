-- ===== src/Security/Orphans.antt =====
-- The caps of apps/api/src/security/attachment-capacity.service.ts hold in every order of adoptions,
-- links and deletions.
use kayaka_style_hd.Prelude.{
  Outcome, ok, require-eq-ok, ok-injective, ℕ, ◌+◌, ◌*◌, ◌≤◌, ◌≡◌, subst, inl, inr, Bool, true,
  ◌&&◌, List, [], ◌∷◌, ◌++◌, arith, leb, Bool-cases, count_where, update_where, drop_where,
  count_where-append, count_where-update_where_le, count_where-drop_where_le,
}
use kayaka_style_hd.Security.Capacity.{
  mib, is_orphan, orphan_count, orphan_bytes, assert_free_disk, assert_orphan_capacity,
  with_orphan_capacity, Attachment, CapacityConfig, CapacityError, storage_unavailable,
}

-- An adoption stores the announced number of files and bytes.
abbrev pub IsAnnounced : ℕ → ℕ → List Attachment → Type 0
IsAnnounced bytes count new = (orphan_count new ≤ count) × (orphan_bytes new ≤ bytes)

abbrev pub append_rows : List Attachment → List Attachment → Outcome CapacityError (List Attachment)
append_rows new rows = ok (rows ++ new)

-- A row that stays an orphan keeps its size.
abbrev pub IsLink : (Attachment → Attachment) → Type 0
IsLink f = (a : Attachment) → is_orphan (f a) ≡ true → (is_orphan a ≡ true) × ((f a).size ≡ a.size)

pub data Stored (c : CapacityConfig) : List Attachment → Type 0 where
  empty : Stored c []
  adopt :
      {rows : List Attachment} (after new : List Attachment) (available bytes count : ℕ)
      → Stored c rows
      → IsAnnounced bytes count new
      → with_orphan_capacity c available bytes count (append_rows new) rows ≡ ok after
      → Stored c after
  link :
      {rows : List Attachment} (p : Attachment → Bool) (f : Attachment → Attachment)
      → Stored c rows
      → IsLink f
      → Stored c (update_where p f rows)
  delete :
      {rows : List Attachment} (p : Attachment → Bool)
      → Stored c rows
      → Stored c (drop_where p rows)

pub record IsWithin (c : CapacityConfig) (rows : List Attachment) : Type 0 where
  pub few : orphan_count rows ≤ c.orphan_max_count
  pub small : orphan_bytes rows ≤ c.orphan_max_size_mb * mib

orphan_bytes-append :
    (xs ys : List Attachment) → orphan_bytes (xs ++ ys) ≡ orphan_bytes xs + orphan_bytes ys
unfolding orphan_bytes
orphan_bytes-append [] ys = omega arith
orphan_bytes-append (x ∷ xs) ys = omega (arith, orphan_bytes-append xs ys)

orphan_bytes-update_where :
    (p : Attachment → Bool) (f : Attachment → Attachment) (xs : List Attachment)
    → IsLink f
    → orphan_bytes (update_where p f xs) ≤ orphan_bytes xs
unfolding orphan_bytes update_where
orphan_bytes-update_where p f [] h = omega arith
orphan_bytes-update_where p f (x ∷ xs) h =
    let rest = orphan_bytes-update_where p f xs h in
    elim (Bool-cases (p x)) [
      | inr t ↦ rw t (omega arith)
      | inl t ↦ elim (Bool-cases (is_orphan (f x))) [
        | inl o ↦ let k = h x o in rw (t, o, k.0, k.1) (omega arith)
        | inr o ↦ rw (t, o) (omega arith)
      ]
    ]

orphan_bytes-drop_where :
    (p : Attachment → Bool) (xs : List Attachment)
    → orphan_bytes (drop_where p xs) ≤ orphan_bytes xs
unfolding orphan_bytes drop_where
orphan_bytes-drop_where p [] = omega arith
orphan_bytes-drop_where p (x ∷ xs) = ground (arith, orphan_bytes-drop_where p xs)

adopted-IsWithin :
    (c : CapacityConfig) (rows after new : List Attachment) (available bytes count : ℕ)
    → IsAnnounced bytes count new
    → with_orphan_capacity c available bytes count (append_rows new) rows ≡ ok after
    → IsWithin c after
unfolding with_orphan_capacity assert_free_disk assert_orphan_capacity orphan_count
adopted-IsWithin c rows after new available bytes count (n, b) h =
    let h1 = (require-eq-ok (leb 1 count) storage_unavailable _ h).1 in
    let h2 =
      (require-eq-ok (leb (c.min_free_disk_mb * mib + 0) available) storage_unavailable _ h1).1 in
    let (t, h3) =
      require-eq-ok
        (leb (orphan_count rows + count) c.orphan_max_count
          && leb (orphan_bytes rows + bytes) (c.orphan_max_size_mb * mib))
        storage_unavailable _ h2 in
    let same : rows ++ new ≡ after = ok-injective h3 in
    let l : orphan_count rows + count ≤ c.orphan_max_count = ground arith in
    let m : orphan_bytes rows + bytes ≤ c.orphan_max_size_mb * mib = ground arith in
    subst (IsWithin c) same record {
      few = omega (arith, count_where-append is_orphan rows new);
      small = omega (arith, orphan_bytes-append rows new);
    }

-- In every order of adoptions by any servers, links to tickets and deletions, the attachments that
-- belong to nothing stay within the configured count and bytes, if each adoption stores no more than
-- it has announced.
pub Stored-IsWithin :
    (c : CapacityConfig) {rows : List Attachment} → Stored c rows → IsWithin c rows
unfolding orphan_count orphan_bytes count_where
Stored-IsWithin c empty = record { few = omega arith; small = omega arith }
Stored-IsWithin c (adopt after new available bytes count s n h) =
    adopted-IsWithin c _ after new available bytes count n h
Stored-IsWithin c (link {rows = rows} p f s l) =
    let k = Stored-IsWithin c s in
    record {
      few =
          omega (arith, k.few, count_where-update_where_le is_orphan p f rows (λ a t o. (l a o).0));
      small = omega (arith, k.small, orphan_bytes-update_where p f rows l);
    }
Stored-IsWithin c (delete {rows = rows} p s) =
    let k = Stored-IsWithin c s in
    record {
      few = omega (arith, k.few, count_where-drop_where_le is_orphan p rows);
      small = omega (arith, k.small, orphan_bytes-drop_where p rows);
    }
