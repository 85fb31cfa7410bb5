-- ===== src/Inbound/Routing.antt =====
-- The business route of a delivery: `resolveInboundRoute` on the snapshot of a ledger row, and
-- `normalizeRoutingSnapshot`, of apps/api/src/modules/mail/inbound.service.ts.
use kayaka_style_hd.Prelude.{
  ℕ, Bool, true, false, not, ◌&&◌, ◌||◌, Option, none, some, List, [], ◌∷◌, ◌++◌, map, ltb, leb,
  ◌==◌, if◌then◌else◌, any, elem, keep,
}
use kayaka_style_hd.Common.Email.{Text, same_text, is_empty, normalize_email}

pub record RoutingSnapshotEntry : Type 0 where
  pub id : ℕ
  pub email_address : Text
  pub department_id : Option ℕ
  pub routing_priority : ℕ
  pub send_autoresponder : Bool

-- A stored entry; a field of another type or out of range is `none`.
pub record StoredEntry : Type 0 where
  pub id : Option ℕ
  pub email_address : Option Text
  pub department_id : Option (Option ℕ)
  pub routing_priority : Option ℕ
  pub send_autoresponder : Option Bool

pub record DeliveryRoutingContext : Type 0 where
  pub queue_id : Option ℕ
  pub routed_queue_id : Option ℕ
  pub routed_department_id : Option ℕ
  pub envelope_to : Option Text
  pub send_autoresponder : Option Bool
  pub routing_snapshot : List RoutingSnapshotEntry

pub record InboundRoute : Type 0 where
  pub queue_id : Option ℕ
  pub department_id : Option ℕ
  pub send_autoresponder : Option Bool
  pub fallback : Bool

abbrev pub or_else : Option ℕ → Option ℕ → Option ℕ
or_else none other = other
or_else (some n) other = some n

-- The order by priority, and by id within one priority.
abbrev pub is_before : RoutingSnapshotEntry → RoutingSnapshotEntry → Bool
is_before a b =
    ltb a.routing_priority b.routing_priority
    || a.routing_priority == b.routing_priority && leb a.id b.id

unfoldable pub insert_entry :
    RoutingSnapshotEntry → List RoutingSnapshotEntry → List RoutingSnapshotEntry
insert_entry e [] = e ∷ []
insert_entry e (x ∷ xs) =
    let rest = insert_entry e xs in if is_before e x then e ∷ x ∷ xs else x ∷ rest

unfoldable pub sort_entries : List RoutingSnapshotEntry → List RoutingSnapshotEntry
unfolding insert_entry
sort_entries [] = []
sort_entries (e ∷ es) = insert_entry e (sort_entries es)

abbrev pub complete : (Text → Text) → StoredEntry → Option RoutingSnapshotEntry
unfolding normalize_email
complete lower s =
    complete_with s.id s.email_address s.department_id s.routing_priority s.send_autoresponder
  where
    complete_with :
        Option ℕ
        → Option Text
        → Option (Option ℕ)
        → Option ℕ
        → Option Bool
        → Option RoutingSnapshotEntry
    complete_with (some id) (some email) (some department) (some priority) (some autoresponder) =
        if is_empty (normalize_email lower email)
        then none
        else some record {
          id = id;
          email_address = email;
          department_id = department;
          routing_priority = priority;
          send_autoresponder = autoresponder;
        }
    complete_with _ _ _ _ _ = none

-- The loop, with the ids seen so far.
unfoldable pub complete_entries :
    (Text → Text) → List ℕ → List StoredEntry → List RoutingSnapshotEntry
unfolding complete
complete_entries lower ids [] = []
complete_entries lower ids (s ∷ ss) =
    let skipped = complete_entries lower ids ss in
    elim (complete lower s) [
      | none ↦ skipped
      | some e ↦ if elem e.id ids then skipped else e ∷ complete_entries lower (ids ++ e.id ∷ []) ss
    ]

unfoldable pub normalize_routing_snapshot :
    (Text → Text) → List StoredEntry → List RoutingSnapshotEntry
unfolding complete_entries sort_entries
normalize_routing_snapshot lower ss = sort_entries (complete_entries lower [] ss)

abbrev pub envelope_recipient : Option Text → Text
envelope_recipient none = []
envelope_recipient (some t) = t

-- The normalized addresses of the To and Cc headers and of the envelope, none of them empty.
unfoldable pub recipients_of : (Text → Text) → List Text → Option Text → List Text
unfolding normalize_email keep
recipients_of lower addresses envelope_to =
    keep (λ t. not (is_empty t))
      (map (normalize_email lower) (addresses ++ envelope_recipient envelope_to ∷ []))

unfoldable pub is_addressed : (Text → Text) → List Text → RoutingSnapshotEntry → Bool
unfolding normalize_email
is_addressed lower recipients e =
    any (λ t. same_text t (normalize_email lower e.email_address)) recipients

abbrev pub first_entry : List RoutingSnapshotEntry → Option RoutingSnapshotEntry
first_entry [] = none
first_entry (e ∷ es) = some e

unfoldable pub winning_entry :
    (Text → Text) → List Text → List RoutingSnapshotEntry → Option RoutingSnapshotEntry
unfolding keep sort_entries is_addressed
winning_entry lower recipients es =
    first_entry (sort_entries (keep (is_addressed lower recipients) es))

abbrev pub route_of : DeliveryRoutingContext → Option ℕ → Option RoutingSnapshotEntry → InboundRoute
route_of c fallback_department (some e) = record {
  queue_id = some e.id;
  department_id = or_else e.department_id fallback_department;
  send_autoresponder = some e.send_autoresponder;
  fallback = false;
}
route_of c fallback_department none = record {
  queue_id = or_else c.routed_queue_id c.queue_id;
  department_id = or_else c.routed_department_id fallback_department;
  send_autoresponder = c.send_autoresponder;
  fallback = true;
}

unfoldable pub resolve_inbound_route :
    (Text → Text) → List Text → DeliveryRoutingContext → Option ℕ → InboundRoute
unfolding recipients_of winning_entry
resolve_inbound_route lower addresses c fallback_department =
    route_of c fallback_department
      (winning_entry lower (recipients_of lower addresses c.envelope_to) c.routing_snapshot)
