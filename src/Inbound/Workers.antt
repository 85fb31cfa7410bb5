-- ===== src/Inbound/Workers.antt =====
-- Workers, drains and operators on the inbound ledger, in any order: the parts of `processDelivery` in
-- apps/api/src/modules/mail/inbound.service.ts, the operators' actions of email-queue.service.ts, the
-- owner that `finalize` gives to copies, and the retention of raw messages.
use kayaka_style_hd.Prelude.{
  ok, ℕ, ◌≡◌, Bool, true, false, ◌&&◌, some, List, [], ◌∷◌, ◌++◌, ltb, ◌==◌, if◌then◌else◌,
  count_where,
}
use kayaka_style_hd.Inbound.Store.{
  DeliveryState, processed, skipped, InboundDelivery, Ledger, Config,
}
use kayaka_style_hd.Inbound.Claim.{
  start_processing, settlement, is_leased, settle, heartbeat, Work, routed_to, Settlement,
  to_quarantine, to_retry, to_finish,
}
use kayaka_style_hd.Inbound.Writers.{adopt_copies, prune_raw_mime, forget_raw_storage}
use kayaka_style_hd.Inbound.Operators.{
  replay_quarantined, promote_captured, MailTables, MailRequest,
}

-- A claimed row in the hands of a worker, under the token of its claim.
pub record Hold : Type 0 where
  pub delivery : InboundDelivery
  pub token : ℕ

-- The tables, the claims under work, and, of the past, the ids of the deliveries that a settlement has
-- finished.
pub record System : Type 0 where
  pub tables : MailTables
  pub holds : List Hold
  pub finished : List ℕ

abbrev pub has_id : ℕ → InboundDelivery → Bool
has_id id d = d.id == id

abbrev pub is : ℕ → ℕ → Bool
is id x = x == id

abbrev pub is_finish : Settlement → Bool
is_finish (to_quarantine _) = false
is_finish (to_retry _ _) = false
is_finish (to_finish _ _ _) = true

-- The outcomes of `processRawMessage`: `PROCESSED` and `SKIPPED`.
abbrev pub is_outcome : DeliveryState → Bool
is_outcome processed = true
is_outcome skipped = true
is_outcome _ = false

abbrev pub IsOutcome : Work → Type 0
IsOutcome (routed_to state ticket post) = is_outcome state ≡ true
IsOutcome _ = Unit {0}

-- A delivery is finished by a settlement that finds its row still under the lease.
abbrev pub finishing : ℕ → ℕ → Settlement → Ledger → List ℕ → List ℕ
unfolding count_where
finishing id token s db ids =
    if is_finish s && ltb 0 (count_where (is_leased id token) db.deliveries) then id ∷ ids else ids

abbrev pub on_ledger : System → Ledger → System
on_ledger s db = record s { tables = record (s.tables) { ledger = db } }

pub data Step (c : Config) : System → System → Type 0 where
  -- A new row, under an id that nothing has used, accepted or set aside.
  accept :
      (s : System) (d : InboundDelivery)
      → count_where (has_id d.id) s.tables.ledger.deliveries ≡ 0
      → count_where (is d.id) s.finished ≡ 0
      → is_outcome d.state ≡ false
      → Step c s (
          on_ledger s
            (record (s.tables.ledger) { deliveries = s.tables.ledger.deliveries ++ d ∷ [] }))
  start :
      (s : System) (now token id : ℕ) (d : InboundDelivery)
      → (start_processing c now token id s.tables.ledger).1 ≡ some d
      → Step c s (record (on_ledger s (start_processing c now token id s.tables.ledger).0) {
        holds = record { delivery = d; token = token } ∷ s.holds;
      })
  start_nothing :
      (s : System) (now token id : ℕ)
      → Step c s (on_ledger s (start_processing c now token id s.tables.ledger).0)
  beat :
      (s : System) (now id token : ℕ)
      → Step c s (on_ledger s (heartbeat now id token s.tables.ledger))
  -- A worker settles its claim; it may settle late, after another worker's claim.
  finish :
      (s : System) (now : ℕ) (before after : List Hold) (h : Hold) (w : Work)
      → s.holds ≡ before ++ h ∷ after
      → IsOutcome w
      → Step c s record {
        tables = record (s.tables) {
          ledger = settle now h.delivery.id h.token (settlement c now h.delivery w) s.tables.ledger;
        };
        holds = before ++ after;
        finished =
            finishing h.delivery.id h.token
              (settlement c now h.delivery w)
              s.tables.ledger
              s.finished;
      }
  die :
      (s : System) (before after : List Hold) (h : Hold)
      → s.holds ≡ before ++ h ∷ after
      → Step c s (record s { holds = before ++ after })
  replay :
      (s : System) (now : ℕ) (r : MailRequest) (db : MailTables)
      → replay_quarantined c now r s.tables ≡ ok db
      → Step c s (record s { tables = db })
  promote :
      (s : System) (now : ℕ) (r : MailRequest) (db : MailTables)
      → promote_captured c now r s.tables ≡ ok db
      → Step c s (record s { tables = db })
  adopt :
      (s : System) (now : ℕ) (is_copy : InboundDelivery → Bool) (ticket : ℕ)
      → Step c s (on_ledger s (adopt_copies now is_copy ticket s.tables.ledger))
  prune :
      (s : System) (now : ℕ) (is_old : InboundDelivery → Bool)
      → Step c s (on_ledger s (prune_raw_mime now is_old s.tables.ledger))
  forget :
      (s : System) (now id key : ℕ)
      → Step c s (on_ledger s (forget_raw_storage now id key s.tables.ledger))

pub data Reach (c : Config) : System → Type 0 where
  begin :
      (t : MailTables)
      → t.ledger.deliveries ≡ []
      → Reach c record { tables = t; holds = []; finished = [] }
  step : {s t : System} → Reach c s → Step c s t → Reach c t

pub data Run (c : Config) : System → System → Type 0 where
  rest : {s : System} → Run c s s
  more : {s t u : System} → Run c s t → Step c t u → Run c s u
