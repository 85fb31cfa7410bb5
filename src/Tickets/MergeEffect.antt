-- ===== src/Tickets/MergeEffect.antt =====
-- What a merge does to the posts, the watchers and the two tickets, in
-- apps/api/src/modules/tickets/tickets.service.ts.
use kayaka_style_hd.Prelude.{
  ℕ, ◌+◌, ◌≤◌, ◌≡◌, refl, ap, subst, ◌≢◌, inl, inr, Bool, true, not, ◌&&◌, ◌||◌, List, [], ◌∷◌,
  arith, ltb, ◌==◌, if◌then◌else◌, ==_iff, Bool-cases, Option-cases, any, count_where, update_where,
  drop_where, count_where_mono,
}
use kayaka_style_hd.Tickets.Store.{Child, Watcher}
use kayaka_style_hd.Tickets.Merging.{of_ticket, move_children, watches, move_watchers}

-- Moving rows to another ticket empties the source, and the target has the rows of both.
pub move_children_lem :
    (source target : ℕ) (cs : List Child)
    → source ≢ target
    → (count_where (of_ticket source) (move_children source target cs) ≡ 0)
      × (count_where (of_ticket target) (move_children source target cs)
          ≡ count_where (of_ticket source) cs + count_where (of_ticket target) cs)
unfolding move_children count_where update_where
move_children_lem source target [] h = (refl, omega arith)
move_children_lem source target (c ∷ cs) h =
    let (gone, both) = move_children_lem source target cs h in
    elim (Option-cases c.ticket_id) [
      | inl e ↦ (ground (arith, gone), ground (arith, both))
      | inr (t, e) ↦ (ground (arith, gone), ground (arith, both))
    ]

any-count_where : (p : Watcher → Bool) (ws : List Watcher) → any p ws ≡ ltb 0 (count_where p ws)
unfolding count_where
any-count_where p [] = refl
any-count_where p (w ∷ ws) = ground (arith, any-count_where p ws)

module _ (source target : ℕ) (differ : source ≢ target) where
  -- The move, with the watchers of the target that it looks at in a list of their own.
  moved : List Watcher → List Watcher → List Watcher
  moved seen ws =
      drop_where (λ w. w.ticket_id == source)
        (update_where (λ w. w.ticket_id == source && not (any (watches target w.staff_id) seen))
          (λ w. record w { ticket_id = target }) ws)

  moved-gone :
      (seen ws : List Watcher) → count_where (λ w. w.ticket_id == source) (moved seen ws) ≡ 0
  unfolding moved update_where drop_where count_where
  moved-gone seen [] = refl
  moved-gone seen (w ∷ ws) = ground (arith, moved-gone seen ws)

  seen_of_eq :
      (seen : List Watcher) (w : Watcher) (u : ℕ)
      → (w.staff_id == u) ≡ true
      → any (watches target w.staff_id) seen ≡ any (watches target u) seen
  seen_of_eq seen w u e = ap (λ k. any (watches target k) seen) ((==_iff _ _).0 e)

  moved-target :
      (seen ws : List Watcher) (u : ℕ)
      → count_where (watches target u) (moved seen ws)
        ≡ count_where (watches target u) ws
          + (if any (watches target u) seen then 0 else count_where (watches source u) ws)
  unfolding moved update_where drop_where count_where
  moved-target seen [] u = ground arith
  moved-target seen (w ∷ ws) u = ground (arith, moved-target seen ws u, seen_of_eq seen w u)

  moved-other :
      (seen ws : List Watcher) (t u : ℕ)
      → t ≢ source
      → t ≢ target
      → count_where (watches t u) (moved seen ws) ≡ count_where (watches t u) ws
  unfolding moved update_where drop_where count_where
  moved-other seen [] t u h k = refl
  moved-other seen (w ∷ ws) t u h k = ground (arith, moved-other seen ws t u h k)

  moved-source :
      (seen ws : List Watcher) (u : ℕ) → count_where (watches source u) (moved seen ws) ≡ 0
  moved-source seen ws u = omega (
    arith,
    moved-gone seen ws,
    count_where_mono (watches source u) (λ w. w.ticket_id == source) (moved seen ws)
        (λ w e. ground arith),
  )

  moved-once :
      (ws : List Watcher)
      → ((t u : ℕ) → count_where (watches t u) ws ≤ 1)
      → (t u : ℕ) → count_where (watches t u) (moved ws ws) ≤ 1
  moved-once ws once t u = elim (Bool-cases (t == source)) [
    | inl e ↦
        let same : source ≡ t = ground arith in
        subst (λ k. count_where (watches k u) (moved ws ws) ≤ 1) same
          (omega (arith, moved-source ws ws u))
    | inr e ↦ elim (Bool-cases (t == target)) [
      | inl f ↦
          let same : target ≡ t = ground arith in
          subst (λ k. count_where (watches k u) (moved ws ws) ≤ 1) same
            (ground (
              arith,
              moved-target ws ws u,
              once target u,
              once source u,
              any-count_where (watches target u) ws,
            ))
      | inr f ↦ omega (arith, moved-other ws ws t u (ground arith) (ground arith), once t u)
    ]
  ]

  -- Moving watchers to another ticket leaves none at the source, holds each watcher of a ticket once if that was so,
  -- and the target is watched by exactly those who watched either ticket.
  pub move_watchers_lem :
      (ws : List Watcher)
      → ((t u : ℕ) → count_where (watches t u) ws ≤ 1)
      → (count_where (λ w. w.ticket_id == source) (move_watchers source target ws) ≡ 0)
        × ((t u : ℕ) → count_where (watches t u) (move_watchers source target ws) ≤ 1)
        × ((u : ℕ)
            → any (watches target u) (move_watchers source target ws)
              ≡ (any (watches source u) ws || any (watches target u) ws))
  unfolding move_watchers moved
  move_watchers_lem ws once = (
    moved-gone ws ws,
    moved-once ws once,
    λ u. ground (
      arith,
      any-count_where (watches target u) (moved ws ws),
      moved-target ws ws u,
      any-count_where (watches target u) ws,
      any-count_where (watches source u) ws,
    ),
  )
