-- ===== src/Base/Table.antt =====
-- A table as a list of rows, latest first. A query that expects one row takes the first that
-- passes; an object that the session has loaded is written through the same test.
use marzbot.Base.{
  ℕ, ◌+◌, ◌≤◌, ◌≡◌, refl, Bool, true, false, Option, none, some, List, [], ◌∷◌, arith,
  if◌then◌else◌, All, Bool-cases, inl, inr,
}

module _ {A : Type 0} where
  abbrev first_some : Option A → Option A → Option A
  first_some none o = o
  first_some (some a) o = some a

  -- `scalar_one_or_none` and `session.get`
  abbrev pub find : (A → Bool) → List A → Option A
  find p [] = none
  find p (x ∷ xs) = if p x then some x else find p xs

  -- The oldest row that passes: `order_by(created_at.asc()).limit(1)`.
  abbrev pub find_last : (A → Bool) → List A → Option A
  find_last p [] = none
  find_last p (x ∷ xs) = first_some (find_last p xs) (if p x then some x else none)

  -- A write to the object that `find p` returns.
  abbrev pub modify : (A → Bool) → (A → A) → List A → List A
  modify p f [] = []
  modify p f (x ∷ xs) = if p x then f x ∷ xs else x ∷ modify p f xs

  -- `scalars().all()` with a `where`
  abbrev pub select : (A → Bool) → List A → List A
  select p [] = []
  select p (x ∷ xs) = if p x then x ∷ select p xs else select p xs

  -- The rows that a deletion leaves.
  abbrev pub without : (A → Bool) → List A → List A
  without p [] = []
  without p (x ∷ xs) = if p x then without p xs else x ∷ without p xs

  -- `select(func.count())`
  abbrev pub count : (A → Bool) → List A → ℕ
  count p [] = 0
  count p (x ∷ xs) = (if p x then 1 else 0) + count p xs

  pub find-passes : (p : A → Bool) (xs : List A) {a : A} → find p xs ≡ some a → p a ≡ true
  find-passes p [] e = cc
  find-passes p (x ∷ xs) {a} e = ground (arith, find-passes p xs {a = a})

  -- The written object is the one that is found again.
  pub find-modify_self :
      (p : A → Bool) (f : A → A) (xs : List A) {a : A}
      → find p xs ≡ some a
      → p (f a) ≡ true
      → find p (modify p f xs) ≡ some (f a)
  find-modify_self p f [] e h = cc
  find-modify_self p f (x ∷ xs) {a} e h = ground (arith, find-modify_self p f xs {a = a})

  -- A write is not seen by a query that holds neither of the old nor of the new object.
  pub find-modify_other :
      (p q : A → Bool) (f : A → A) (xs : List A)
      → ((a : A) → p a ≡ true → (q a ≡ false) × (q (f a) ≡ false))
      → find q (modify p f xs) ≡ find q xs
  find-modify_other p q f [] h = refl
  find-modify_other p q f (x ∷ xs) h = ground (arith, h x, find-modify_other p q f xs h)

  -- Nor is it by one that holds neither of the row that is written nor of what becomes of it.
  pub find-modify_apart :
      (p q : A → Bool) (f : A → A) (xs : List A) {a : A}
      → find p xs ≡ some a
      → q a ≡ false
      → q (f a) ≡ false
      → find q (modify p f xs) ≡ find q xs
  find-modify_apart p q f [] e h k = refl
  find-modify_apart p q f (x ∷ xs) {a} e h k = ground (arith, find-modify_apart p q f xs {a = a})

  pub All-modify {κ} :
      (P : A → Type κ) (p : A → Bool) (f : A → A) (xs : List A)
      → ((a : A) → find p xs ≡ some a → P a → P (f a))
      → All P xs
      → All P (modify p f xs)
  All-modify P p f [] h all = tt
  All-modify P p f (x ∷ xs) h all = ground (arith, h x, All-modify P p f xs)

  pub All-find {κ} :
      (P : A → Type κ) (p : A → Bool) (xs : List A) {a : A} → All P xs → find p xs ≡ some a → P a
  All-find P p [] all e = cc
  All-find P p (x ∷ xs) {a} all e = ground (arith, All-find P p xs {a = a} all.1)

  -- Two writes to the same object are one.
  pub modify-modify :
      (p : A → Bool) (f g : A → A) (xs : List A) {a : A}
      → find p xs ≡ some a
      → p (f a) ≡ true
      → modify p g (modify p f xs) ≡ modify p (λ x. g (f x)) xs
  modify-modify p f g [] e h = refl
  modify-modify p f g (x ∷ xs) {a} e h = ground (arith, modify-modify p f g xs {a = a})

  -- A write that leaves the object as it is changes nothing.
  pub modify-id :
      (p : A → Bool) (f : A → A) (xs : List A) {a : A}
      → find p xs ≡ some a
      → f a ≡ a
      → modify p f xs ≡ xs
  modify-id p f [] e h = refl
  modify-id p f (x ∷ xs) {a} e h = ground (arith, modify-id p f xs {a = a})

  -- A write to the row that two queries find is seen by both.
  pub find-modify_same :
      (p q : A → Bool) (f : A → A) (xs : List A) {a : A}
      → find p xs ≡ some a
      → find q xs ≡ some a
      → p (f a) ≡ true
      → find p (modify q f xs) ≡ some (f a)
  find-modify_same p q f [] e d h = cc
  find-modify_same p q f (x ∷ xs) {a} e d h =
      ground (
        arith,
        find-passes p xs {a = a},
        find-passes q xs {a = a},
        find-modify_same p q f xs {a = a},
      )

  pub count_zero : (q : A → Bool) (xs : List A) → find q xs ≡ none → count q xs ≡ 0
  count_zero q [] e = refl
  count_zero q (x ∷ xs) e = ground (arith, count_zero q xs)

  -- A write that makes no row pass leaves no more of them.
  pub count-modify-le :
      (q p : A → Bool) (f : A → A) (xs : List A)
      → ((a : A) → find p xs ≡ some a → q (f a) ≡ true → q a ≡ true)
      → count q (modify p f xs) ≤ count q xs
  count-modify-le q p f [] h = omega arith
  count-modify-le q p f (x ∷ xs) h = elim (Bool-cases (p x)) [
    | inl e ↦ rw e (ground (arith, h x (rw e refl)))
    | inr e ↦ rw e (omega (arith, count-modify-le q p f xs (λ a d. h a (rw e d))))
  ]

  -- A write that makes the row pass adds one.
  pub count-modify_suc :
      (q p : A → Bool) (f : A → A) (xs : List A) {a : A}
      → find p xs ≡ some a
      → q a ≡ false
      → q (f a) ≡ true
      → count q (modify p f xs) ≡ count q xs + 1
  count-modify_suc q p f [] e out within = cc
  count-modify_suc q p f (x ∷ xs) {a} e out within =
      ground (arith, count-modify_suc q p f xs {a = a})

  -- No row that passes is left.
  pub find-without : (p : A → Bool) (xs : List A) → find p (without p xs) ≡ none
  find-without p [] = refl
  find-without p (x ∷ xs) = ground (arith, find-without p xs)
