-- ===== src/Inbound/Winner.antt =====
-- The queue that a snapshot routes to: `resolveInboundRoute` of
-- apps/api/src/modules/mail/inbound.service.ts.
use mathlib.Core.List.{Memᴰ}
use mathlib.Core.List.Memᴰ.{head, tail}
use kayaka_style_hd.Prelude.{
  ℕ, ◌≤◌, ◌<◌, ◌≡◌, refl, ap, ◌∙◌, subst, ◌⊎◌, inl, inr, Bool, true, false, not, ◌&&◌, Option, none,
  some, List, [], ◌∷◌, ◌++◌, map, arith, ltb, Bool-cases, any, All, All-map, keep,
}
use kayaka_style_hd.Common.Email.{Text, same_text, is_empty, normalize_email}
use kayaka_style_hd.Inbound.Routing.{
  or_else, is_before, insert_entry, sort_entries, envelope_recipient, recipients_of, is_addressed,
  first_entry, winning_entry, route_of, resolve_inbound_route, RoutingSnapshotEntry,
  DeliveryRoutingContext, InboundRoute,
}

-- The first of the sorted entries is one of them and before all of them.
abbrev pub IsFirst : List RoutingSnapshotEntry → Option RoutingSnapshotEntry → Type 0
IsFirst es none = es ≡ []
IsFirst es (some w) = Memᴰ w es × All (λ x. is_before w x ≡ true) es

is_before_refl : (e : RoutingSnapshotEntry) → is_before e e ≡ true
is_before_refl e = ground arith

is_before_trans :
    (a b x : RoutingSnapshotEntry)
    → is_before a b ≡ true
    → is_before b x ≡ true
    → is_before a x ≡ true
is_before_trans a b x h k = ground arith

is_before-total : (a b : RoutingSnapshotEntry) → is_before a b ≡ false → is_before b a ≡ true
is_before-total a b h = ground arith

IsFirst-insert :
    (e : RoutingSnapshotEntry) (es ys : List RoutingSnapshotEntry)
    → IsFirst es (first_entry ys)
    → IsFirst (e ∷ es) (first_entry (insert_entry e ys))
unfolding insert_entry
IsFirst-insert e es [] h = (head refl, (is_before_refl e, rw h tt))
IsFirst-insert e es (y ∷ ys) h = elim (Bool-cases (is_before e y)) [
  | inl t ↦ rw t (
    head refl,
    (
      is_before_refl e,
      All-map (λ x. is_before y x ≡ true) (λ x. is_before e x ≡ true)
          (λ x k. is_before_trans e y x t k) es h.1,
    ),
  )
  | inr t ↦ rw t (tail h.0, (is_before-total e y t, h.1))
]

sort_entries-IsFirst : (es : List RoutingSnapshotEntry) → IsFirst es (first_entry (sort_entries es))
unfolding sort_entries
sort_entries-IsFirst [] = refl
sort_entries-IsFirst (e ∷ es) = IsFirst-insert e es (sort_entries es) (sort_entries-IsFirst es)

-- One of the texts is the entry's address, both normalized, and is not empty.
abbrev pub is_named : (Text → Text) → List Text → RoutingSnapshotEntry → Bool
is_named lower texts e =
    any
      (λ t.
        not (is_empty (normalize_email lower t))
        && same_text (normalize_email lower t) (normalize_email lower e.email_address))
      texts

any-keep-map :
    {A : Type 0} (f : A → A) (p q : A → Bool) (xs : List A)
    → any q (keep p (map f xs)) ≡ any (λ x. p (f x) && q (f x)) xs
unfolding keep
any-keep-map f p q [] = refl
any-keep-map f p q (x ∷ xs) = elim (Bool-cases (p (f x))) [
  | inl t ↦ rw (t, any-keep-map f p q xs) refl
  | inr t ↦ rw (t, any-keep-map f p q xs) refl
]

is_addressed-is_named :
    (lower : Text → Text) (addresses : List Text) (to : Option Text) (e : RoutingSnapshotEntry)
    → is_addressed lower (recipients_of lower addresses to) e
      ≡ is_named lower (addresses ++ envelope_recipient to ∷ []) e
unfolding is_addressed recipients_of
is_addressed-is_named lower addresses to e =
    any-keep-map (normalize_email lower) (λ t. not (is_empty t))
      (λ t. same_text t (normalize_email lower e.email_address))
      (addresses ++ envelope_recipient to ∷ [])

Memᴰ-keep :
    {A : Type 0} (p : A → Bool) (xs : List A) (x : A)
    → Memᴰ x (keep p xs)
    → Memᴰ x xs × (p x ≡ true)
unfolding keep
Memᴰ-keep p [] x m = elim m [ ]
Memᴰ-keep p (y ∷ xs) x m = elim (Bool-cases (p y)) [
  | inl t ↦ found_in t (λ k. Memᴰ-keep p xs x k) (rw t at m)
  | inr t ↦ let (k, q) = Memᴰ-keep p xs x (rw t at m) in (tail k, q)
]
  where
    found_in :
        p y ≡ true
        → (Memᴰ x (keep p xs) → Memᴰ x xs × (p x ≡ true))
        → Memᴰ x (y ∷ keep p xs)
        → Memᴰ x (y ∷ xs) × (p x ≡ true)
    found_in t r (head e) = (head e, ap p e ∙ t)
    found_in t r (tail k) = let (l, q) = r k in (tail l, q)

All-unkeep :
    {A : Type 0} (p : A → Bool) (P : A → Type 0) (xs : List A)
    → All P (keep p xs)
    → All (λ x. p x ≡ true → P x) xs
unfolding keep
All-unkeep p P [] h = tt
All-unkeep p P (x ∷ xs) h = elim (Bool-cases (p x)) [
  | inl t ↦ let k : P x × All P (keep p xs) = rw t at h in (λ e. k.0, All-unkeep p P xs k.1)
  | inr t ↦ (λ e. absurd (cc), All-unkeep p P xs (rw t at h))
]

-- Lower priority number, or the same and not a greater id.
abbrev pub Precedes : RoutingSnapshotEntry → RoutingSnapshotEntry → Type 0
Precedes a b =
    (a.routing_priority < b.routing_priority)
    ⊎ ((a.routing_priority ≡ b.routing_priority) × (a.id ≤ b.id))

is_before-Precedes : (a b : RoutingSnapshotEntry) → is_before a b ≡ true → Precedes a b
is_before-Precedes a b h = elim (Bool-cases (ltb a.routing_priority b.routing_priority)) [
  | inl t ↦ inl (ground arith)
  | inr t ↦ inr (ground arith, ground arith)
]

module _ (lower : Text → Text) (addresses : List Text) (c : DeliveryRoutingContext)
    (fallback_department : Option ℕ) where
  -- The texts that may name a queue.
  abbrev pub named : RoutingSnapshotEntry → Bool
  named = is_named lower (addresses ++ envelope_recipient c.envelope_to ∷ [])

  -- Where a message goes: to an entry that it names, or nowhere by the snapshot.
  pub data Routed : InboundRoute → Type 0 where
    by_entry :
        (w : RoutingSnapshotEntry)
        → Memᴰ w c.routing_snapshot
        → named w ≡ true
        → All (λ x. named x ≡ true → Precedes w x) c.routing_snapshot
        → Routed record {
          queue_id = some w.id;
          department_id = or_else w.department_id fallback_department;
          send_autoresponder = some w.send_autoresponder;
          fallback = false;
        }
    by_row :
        All (λ x. named x ≡ false) c.routing_snapshot
        → Routed record {
          queue_id = or_else c.routed_queue_id c.queue_id;
          department_id = or_else c.routed_department_id fallback_department;
          send_autoresponder = c.send_autoresponder;
          fallback = true;
        }

  keep-none :
      (p : RoutingSnapshotEntry → Bool) (es : List RoutingSnapshotEntry)
      → keep p es ≡ []
      → All (λ x. p x ≡ false) es
  unfolding keep
  keep-none p [] h = tt
  keep-none p (x ∷ es) h = elim (Bool-cases (p x)) [
    | inl t ↦ absurd (let k : x ∷ keep p es ≡ [] = rw t at h in cc)
    | inr t ↦ (t, keep-none p es (rw t at h))
  ]

  route_of-Routed :
      (o : Option RoutingSnapshotEntry)
      → IsFirst (keep named c.routing_snapshot) o
      → Routed (route_of c fallback_department o)
  route_of-Routed none h = by_row (keep-none named c.routing_snapshot h)
  route_of-Routed (some w) (m, before) =
      let (here, hit) = Memᴰ-keep named c.routing_snapshot w m in
      by_entry w here hit (
        All-map (λ x. named x ≡ true → is_before w x ≡ true) (λ x. named x ≡ true → Precedes w x)
          (λ x k e. is_before-Precedes w x (k e)) c.routing_snapshot
          (All-unkeep named (λ x. is_before w x ≡ true) c.routing_snapshot before))

  same_tests : is_addressed lower (recipients_of lower addresses c.envelope_to) ≡ named
  same_tests i e = is_addressed-is_named lower addresses c.envelope_to e i

  -- The route of a ledger row: the snapshot's entry that the message names with the lowest priority
  -- number, and among those with the lowest id, where it names one, with that entry's department or
  -- else the fallback; and the queue stored with the row where it names none. A message names an entry
  -- where the entry's address, normalized, is that of one of its recipients or of its envelope.
  pub resolve_inbound_route-Routed :
      Routed (resolve_inbound_route lower addresses c fallback_department)
  unfolding resolve_inbound_route winning_entry
  resolve_inbound_route-Routed =
      route_of-Routed
        (winning_entry lower (recipients_of lower addresses c.envelope_to) c.routing_snapshot)
        (subst
          (λ p.
            IsFirst (keep p c.routing_snapshot) (
              winning_entry lower (recipients_of lower addresses c.envelope_to) c.routing_snapshot))
          same_tests
          (sort_entries-IsFirst (
            keep (is_addressed lower (recipients_of lower addresses c.envelope_to))
              c.routing_snapshot)))
