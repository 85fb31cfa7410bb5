-- ===== src/Prelude/Tables.antt =====
-- Database tables as lists of rows, with the query operations that the services use:
-- `find?` (findUnique, findFirst), `count_where` (the `count` of updateMany), `update_where`
-- (updateMany), `keep` (findMany) and `drop_where` (deleteMany).
use Prim.Native.Nat.{ℕ, ◌+◌, ◌≤◌, ◌<◌}
use mathlib.Core.Path.{◌≡◌, refl, subst}
use mathlib.Core.Logic.{inl, inr}
use mathlib.Core.Bool.{Bool, true, false}
use mathlib.Core.Option
use mathlib.Core.Option.{Option, none, some}
use mathlib.Core.List.{List, [], ◌∷◌, ◌++◌}
use native.Mathlib.Omega.{arith}
use kayaka_style_hd.Prelude.Tests.{if◌then◌else◌, Bool-cases, is_some, ltb}
use kayaka_style_hd.Prelude.Lists.{All, All-map}

module _ {ℓ} {A : Type ℓ} where
  unfoldable pub find? : (A → Bool) → List A → Option A
  find? p [] = none
  find? p (x ∷ xs) = if p x then some x else find? p xs

  unfoldable pub count_where : (A → Bool) → List A → ℕ
  count_where p [] = 0
  count_where p (x ∷ xs) = (if p x then 1 else 0) + count_where p xs

  unfoldable pub update_where : (A → Bool) → (A → A) → List A → List A
  update_where p f [] = []
  update_where p f (x ∷ xs) = (if p x then f x else x) ∷ update_where p f xs

  unfoldable pub keep : (A → Bool) → List A → List A
  keep p [] = []
  keep p (x ∷ xs) = let rest = keep p xs in if p x then x ∷ rest else rest

  unfoldable pub drop_where : (A → Bool) → List A → List A
  drop_where p [] = []
  drop_where p (x ∷ xs) = let rest = drop_where p xs in if p x then rest else x ∷ rest

module _ {ℓ} {A : Type ℓ} where
  pub find?-sound : (p : A → Bool) (xs : List A) (x : A) → find? p xs ≡ some x → p x ≡ true
  unfolding find?
  find?-sound p [] x h = cc
  find?-sound p (y ∷ xs) x h = elim (Bool-cases (p y)) [
    | inl e ↦ let same : y ≡ x = ground arith in rw same at e
    | inr e ↦ find?-sound p xs x (rw e at h)
  ]

  pub All-find? {κ} :
      (P : A → Type κ) (p : A → Bool) (xs : List A) (x : A) → All P xs → find? p xs ≡ some x → P x
  unfolding find?
  All-find? P p [] x a h = absurd (cc)
  All-find? P p (y ∷ xs) x a h = elim (Bool-cases (p y)) [
    | inl e ↦ let same : y ≡ x = ground arith in subst P same a.0
    | inr e ↦ All-find? P p xs x a.1 (rw e at h)
  ]

  pub count_where-append :
      (q : A → Bool) (xs ys : List A)
      → count_where q (xs ++ ys) ≡ count_where q xs + count_where q ys
  unfolding count_where
  count_where-append q [] ys = omega arith
  count_where-append q (x ∷ xs) ys = omega (arith, count_where-append q xs ys)

  -- An update that no row's test sees leaves the count.
  pub count_where-update_where_same :
      (q p : A → Bool) (f : A → A) (xs : List A)
      → ((x : A) → p x ≡ true → q (f x) ≡ q x)
      → count_where q (update_where p f xs) ≡ count_where q xs
  unfolding count_where update_where
  count_where-update_where_same q p f [] h = refl
  count_where-update_where_same q p f (x ∷ xs) h =
      ground (arith, h x, count_where-update_where_same q p f xs h)

  -- An update that takes its rows out of the test leaves the rows that it does not reach.
  pub count_where-update_where_out :
      (q p : A → Bool) (f : A → A) (xs : List A)
      → All (λ x. p x ≡ true → q x ≡ true) xs
      → ((x : A) → p x ≡ true → q (f x) ≡ false)
      → count_where q (update_where p f xs) + count_where p xs ≡ count_where q xs
  unfolding count_where update_where
  count_where-update_where_out q p f [] h k = omega arith
  count_where-update_where_out q p f (x ∷ xs) h k =
      ground (arith, h.0, k x, count_where-update_where_out q p f xs h.1 k)

  pub count_where-update_where_le :
      (q p : A → Bool) (f : A → A) (xs : List A)
      → ((x : A) → p x ≡ true → q (f x) ≡ true → q x ≡ true)
      → count_where q (update_where p f xs) ≤ count_where q xs
  unfolding count_where update_where
  count_where-update_where_le q p f [] h = omega arith
  count_where-update_where_le q p f (x ∷ xs) h =
      ground (arith, h x, count_where-update_where_le q p f xs h)

  pub count_where-drop_where_le :
      (q p : A → Bool) (xs : List A) → count_where q (drop_where p xs) ≤ count_where q xs
  unfolding count_where drop_where
  count_where-drop_where_le q p [] = omega arith
  count_where-drop_where_le q p (x ∷ xs) = ground (arith, count_where-drop_where_le q p xs)

  pub count_where_mono :
      (q p : A → Bool) (xs : List A)
      → ((x : A) → q x ≡ true → p x ≡ true)
      → count_where q xs ≤ count_where p xs
  unfolding count_where
  count_where_mono q p [] h = omega arith
  count_where_mono q p (x ∷ xs) h = ground (arith, h x, count_where_mono q p xs h)

  pub count_where_none :
      (q : A → Bool) (xs : List A) → All (λ x. q x ≡ false) xs → count_where q xs ≡ 0
  unfolding count_where
  count_where_none q [] h = refl
  count_where_none q (x ∷ xs) h = ground (arith, h.0, count_where_none q xs h.1)

  pub count_where-eq-zero :
      (q : A → Bool) (xs : List A) → count_where q xs ≡ 0 → All (λ x. q x ≡ false) xs
  unfolding count_where
  count_where-eq-zero q [] h = tt
  count_where-eq-zero q (x ∷ xs) h = (ground arith, count_where-eq-zero q xs (omega arith))

  -- A found row is counted.
  pub find?-count_where :
      (p : A → Bool) (xs : List A) (x : A) → find? p xs ≡ some x → 0 < count_where p xs
  unfolding find? count_where
  find?-count_where p [] x h = absurd (cc)
  find?-count_where p (y ∷ xs) x h = ground (arith, find?-count_where p xs x)

module _ {ℓ} {A : Type ℓ} where
  -- Of the rows that pass a test which at most one row passes, the found one is the only one.
  pub find?-unique :
      (p : A → Bool) (xs : List A) (x : A)
      → find? p xs ≡ some x
      → count_where p xs ≤ 1
      → All (λ y. p y ≡ true → y ≡ x) xs
  unfolding find? count_where
  find?-unique p [] x e h = tt
  find?-unique p (y ∷ xs) x e h = elim (Bool-cases (p y)) [
    | inl t ↦
        let same : y ≡ x = ground arith in
        let rest : count_where p xs ≡ 0 = ground arith in
        (
          λ _. same,
          All-map (λ z. p z ≡ false) (λ z. p z ≡ true → z ≡ x) (λ z n m. absurd (cc)) xs
              (count_where-eq-zero p xs rest),
        )
    | inr t ↦ (λ m. absurd (cc), find?-unique p xs x (rw t at e) (ground arith))
  ]

  pub update_where_none :
      (p : A → Bool) (f : A → A) (xs : List A) → count_where p xs ≡ 0 → update_where p f xs ≡ xs
  unfolding count_where update_where
  update_where_none p f [] h = refl
  update_where_none p f (x ∷ xs) h = ground (arith, update_where_none p f xs)

  -- A lookup by a test that the update does not touch finds the row's new state.
  pub find?-update_where :
      (p q : A → Bool) (f : A → A) (xs : List A)
      → ((x : A) → p (f x) ≡ p x)
      → find? p (update_where q f xs) ≡ Option.map (λ x. if q x then f x else x) (find? p xs)
  unfolding find? update_where
  find?-update_where p q f [] h = refl
  find?-update_where p q f (x ∷ xs) h = ground (arith, h x, find?-update_where p q f xs h)

  -- The rows that pass the updated rows' test, where the update makes them pass it.
  pub count_where-update_where_in :
      (q p : A → Bool) (f : A → A) (xs : List A)
      → ((x : A) → p x ≡ true → q (f x) ≡ true)
      → count_where p xs ≤ count_where q (update_where p f xs)
  unfolding count_where update_where
  count_where-update_where_in q p f [] h = omega arith
  count_where-update_where_in q p f (x ∷ xs) h =
      ground (arith, h x, count_where-update_where_in q p f xs h)

  -- The rows that pass a test after an update are updated, or passed it before.
  pub count_where-update_where_le_add :
      (q p : A → Bool) (f : A → A) (xs : List A)
      → count_where q (update_where p f xs) ≤ count_where p xs + count_where q xs
  unfolding count_where update_where
  count_where-update_where_le_add q p f [] = omega arith
  count_where-update_where_le_add q p f (x ∷ xs) =
      ground (arith, count_where-update_where_le_add q p f xs)

  -- A row is found exactly if one is counted.
  pub is_some-find? : (p : A → Bool) (xs : List A) → is_some (find? p xs) ≡ ltb 0 (count_where p xs)
  unfolding find? count_where
  is_some-find? p [] = refl
  is_some-find? p (x ∷ xs) = ground (arith, is_some-find? p xs)

  pub count_where_pos :
      (p q : A → Bool) (xs : List A) (x : A)
      → find? p xs ≡ some x
      → q x ≡ true
      → 0 < count_where q xs
  unfolding find? count_where
  count_where_pos p q [] x e h = absurd (cc)
  count_where_pos p q (y ∷ xs) x e h = elim (Bool-cases (p y)) [
    | inl t ↦ let same : y ≡ x = ground arith in rw (same, h) (omega arith)
    | inr t ↦ omega (arith, count_where_pos p q xs x (rw t at e) h)
  ]

  pub count_where-sole :
      (q : A → Bool) (x : A) (xs : List A)
      → count_where q (xs ++ x ∷ []) ≡ count_where q xs + (if q x then 1 else 0)
  unfolding count_where
  count_where-sole q x xs = omega (arith, count_where-append q xs (x ∷ []))

module _ {ℓ κ} {A : Type ℓ} (P : A → Type κ) where
  pub All-update_where :
      (p : A → Bool) (f : A → A) (xs : List A)
      → ((x : A) → p x ≡ true → P x → P (f x))
      → All P xs
      → All P (update_where p f xs)
  unfolding update_where
  All-update_where p f [] h a = tt
  All-update_where p f (x ∷ xs) h a = elim (Bool-cases (p x)) [
    | inl e ↦ rw e (h x e a.0, All-update_where p f xs h a.1)
    | inr e ↦ rw e (a.0, All-update_where p f xs h a.1)
  ]

  pub All-drop_where : (p : A → Bool) (xs : List A) → All P xs → All P (drop_where p xs)
  unfolding drop_where
  All-drop_where p [] a = tt
  All-drop_where p (x ∷ xs) a = elim (Bool-cases (p x)) [
    | inl e ↦ rw e (All-drop_where p xs a.1)
    | inr e ↦ rw e (a.0, All-drop_where p xs a.1)
  ]

  pub All-keep : (p : A → Bool) (xs : List A) → All P xs → All P (keep p xs)
  unfolding keep
  All-keep p [] a = tt
  All-keep p (x ∷ xs) a = elim (Bool-cases (p x)) [
    | inl e ↦ rw e (a.0, All-keep p xs a.1)
    | inr e ↦ rw e (All-keep p xs a.1)
  ]

pub All-keep_test {ℓ} :
    {A : Type ℓ} (p : A → Bool) (xs : List A) → All (λ x. p x ≡ true) (keep p xs)
unfolding keep
All-keep_test p [] = tt
All-keep_test p (x ∷ xs) = elim (Bool-cases (p x)) [
  | inl e ↦ rw e (e, All-keep_test p xs)
  | inr e ↦ rw e (All-keep_test p xs)
]

pub All-keep_if {ℓ κ} :
    {A : Type ℓ} (P : A → Type κ) (p : A → Bool) (xs : List A)
    → All (λ x. p x ≡ true → P x) xs
    → All P (keep p xs)
unfolding keep
All-keep_if P p [] h = tt
All-keep_if P p (x ∷ xs) h = elim (Bool-cases (p x)) [
  | inl e ↦ rw e (h.0 e, All-keep_if P p xs h.1)
  | inr e ↦ rw e (All-keep_if P p xs h.1)
]
