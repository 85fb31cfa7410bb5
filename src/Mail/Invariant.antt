-- ===== src/Mail/Invariant.antt =====
-- The invariant of the workers on the durable outbox of apps/api/src/modules/mail/mail.service.ts,
-- through every step.
use kayaka_style_hd.Prelude.{
  ℕ, ◌+◌, ◌≤◌, ◌<◌, ◌≡◌, ap, subst, Bool, List, [], ◌∷◌, ◌++◌, arith, if◌then◌else◌, All, All-map,
  count_where,
}
use kayaka_style_hd.Mail.Store.{MailDb}
use kayaka_style_hd.Mail.Workers.{is_for, is, Attempt, System}
use kayaka_style_hd.Mail.Rows.{waits_for, AllSound, UniqueIds, none_freed, IsSound, Keeps}
use kayaka_style_hd.Mail.Updates.{frees}
use kayaka_style_hd.Mail.Requeue.{more_accepted-IsSound}

abbrev pub IsCounted : Attempt → Type 0
IsCounted a = a.email.attempts ≡ a.email.lease_version

abbrev pub WasAccepted : List ℕ → Attempt → Type 0
WasAccepted accepted a = 0 < count_where (is a.email.id) accepted

-- A command waits, is attempted or was accepted at most once, but for the operators' retries.
pub record IsValid (s : System) : Type 0 where
  pub slots :
      (id : ℕ)
      → count_where (waits_for id) s.db.emails
          + count_where (is_for id) s.running
          + count_where (is id) s.accepted
        ≤ 1 + count_where (is id) s.retried
  pub unique : UniqueIds s.db.emails
  pub sound : AllSound s.accepted s.retried s.db.emails
  pub running_counted : All IsCounted s.running
  pub handed_counted : All IsCounted s.handed_over
  pub handed_accepted : All (WasAccepted s.accepted) s.handed_over

-- A step that changes rows only, and queues none again.
pub keep-IsValid :
    (s : System) (db : MailDb)
    → Keeps s.accepted s.retried none_freed s.db.emails db.emails
    → IsValid s
    → IsValid (record s { db = db })
keep-IsValid s db k v = record {
  slots = λ id. omega (arith, k.slots id, v.slots id);
  unique = k.unique v.unique;
  sound = k.sound v.sound;
  running_counted = v.running_counted;
  handed_counted = v.handed_counted;
  handed_accepted = v.handed_accepted;
}

pub All-remove {ℓ κ} :
    {A : Type ℓ} (P : A → Type κ) (before after : List A) (a : A)
    → All P (before ++ a ∷ after)
    → P a × All P (before ++ after)
All-remove P [] after a h = h
All-remove P (x ∷ xs) after a h = let rest = All-remove P xs after a h.1 in (rest.0, (h.0, rest.1))

count_where-remove {ℓ} :
    {A : Type ℓ} (q : A → Bool) (before after : List A) (a : A)
    → count_where q (before ++ a ∷ after) ≡ count_where q (before ++ after) + (if q a then 1 else 0)
unfolding count_where
count_where-remove q [] after a = omega arith
count_where-remove q (x ∷ xs) after a = omega (arith, count_where-remove q xs after a)

-- The end of an attempt that may queue its row again.
pub end-IsValid :
    (s : System) (db : MailDb) (before after : List Attempt) (a : Attempt)
    → s.running ≡ before ++ a ∷ after
    → Keeps s.accepted s.retried (frees a.email) s.db.emails db.emails
    → IsValid s
    → IsValid (record s { db = db; running = before ++ after })
end-IsValid s db before after a e k v = record {
  slots = λ id.
      let n = ap (count_where (is_for id)) e in
      omega (arith, k.slots id, v.slots id, count_where-remove (is_for id) before after a);
  unique = k.unique v.unique;
  sound = k.sound v.sound;
  running_counted =
      (All-remove IsCounted before after a (subst (All IsCounted) e v.running_counted)).1;
  handed_counted = v.handed_counted;
  handed_accepted = v.handed_accepted;
}

more-WasAccepted :
    (accepted : List ℕ) (id : ℕ) (a : Attempt)
    → WasAccepted accepted a
    → WasAccepted (id ∷ accepted) a
unfolding count_where
more-WasAccepted accepted id a h = omega arith

-- The end of an attempt that the relay has accepted.
pub accepted-IsValid :
    (s : System) (db : MailDb) (before after : List Attempt) (a : Attempt)
    → s.running ≡ before ++ a ∷ after
    → Keeps s.accepted s.retried none_freed s.db.emails db.emails
    → IsValid s
    → IsValid (record s { db = db; running = before ++ after; accepted = a.email.id ∷ s.accepted })
unfolding count_where
accepted-IsValid s db before after a e k v = record {
  slots = λ id.
      let n = ap (count_where (is_for id)) e in
      omega (arith, k.slots id, v.slots id, count_where-remove (is_for id) before after a);
  unique = k.unique v.unique;
  sound =
      All-map (IsSound s.accepted s.retried) (IsSound (a.email.id ∷ s.accepted) s.retried)
        (more_accepted-IsSound a.email.id) db.emails (k.sound v.sound);
  running_counted =
      (All-remove IsCounted before after a (subst (All IsCounted) e v.running_counted)).1;
  handed_counted = v.handed_counted;
  handed_accepted =
      All-map (WasAccepted s.accepted) (WasAccepted (a.email.id ∷ s.accepted))
        (more-WasAccepted s.accepted a.email.id) s.handed_over v.handed_accepted;
}

pub handed_over-IsValid :
    (s : System) (a : Attempt)
    → IsCounted a
    → WasAccepted s.accepted a
    → IsValid s
    → IsValid (record s { handed_over = a ∷ s.handed_over })
handed_over-IsValid s a c w v = record {
  slots = v.slots;
  unique = v.unique;
  sound = v.sound;
  running_counted = v.running_counted;
  handed_counted = (c, v.handed_counted);
  handed_accepted = (w, v.handed_accepted);
}
