-- ===== src/Support/Counting.antt =====
-- How many tickets of a user are open (repositories/ticket.py), as the tickets change.
use marzbot.Base.{
  ℕ, ◌+◌, ◌≤◌, ◌≡◌, ap, true, ◌&&◌, none, some, List, arith, ◌==◌, if◌then◌else◌, ==_iff,
  Bool-cases, inl, inr,
}
use marzbot.Base.Table.{find, modify, count, count_zero, count-modify-le, find-passes}
use marzbot.Models.{Uuid, Ticket, answered, closed}
use marzbot.Session.{Session, Run, ok, err, Action, final, proceed, settle, commit}
use marzbot.Support.{open_for, is_open, asked_again, with_status, ticket_has_id}

-- The user `x` has one open ticket at most.
abbrev pub HasOneOpen : Uuid → Session → Type 0
HasOneOpen x s = count (open_for x) s.tickets ≤ 1

pub one_more :
    (x user_id : Uuid) (ts : List Ticket)
    → count (open_for x) ts ≤ 1
    → find (open_for user_id) ts ≡ none
    → (if user_id == x && true then 1 else 0) + count (open_for x) ts ≤ 1
one_more x user_id ts h e = elim (Bool-cases (user_id == x)) [
  | inl same ↦
      let eq = (==_iff user_id x).0 same in
      omega (
        arith,
        count_zero (open_for x) ts (rw (← eq) e),
        ap {B = ℕ} (λ b. if b && true then 1 else 0) same,
      )
  | inr other ↦ rw other (omega arith)
]

pub same_id :
    (t : Ticket) (i : Uuid) (s : Session) → find (ticket_has_id i) s.tickets ≡ some t → t.id ≡ i
same_id t i s e = (==_iff t.id i).0 (find-passes (ticket_has_id i) s.tickets e)

pub proceed-HasOneOpen :
    {A B : Type 0} (x : Uuid) (run : Run A) (f : A → Action B)
    → HasOneOpen x (final run)
    → ((a : A) (t : Session) → HasOneOpen x t → HasOneOpen x (final (f a t)))
    → HasOneOpen x (final (proceed run f))
proceed-HasOneOpen x (ok a t) f h k = k a t h
proceed-HasOneOpen x (err e t) f h k = h

pub settle-HasOneOpen :
    {A : Type 0} (x : Uuid) (s : Session) (run : Run A)
    → HasOneOpen x s
    → HasOneOpen x (final run)
    → HasOneOpen x (final (settle s run))
settle-HasOneOpen x s (ok a t) h k = elim (Bool-cases t.poisoned) [
  | inl e ↦ rw (e, commit) h
  | inr e ↦ rw (e, commit) k
]
settle-HasOneOpen x s (err e t) h k = h

pub asked_again_one :
    (x user_id : Uuid) (ts : List Ticket)
    → count (open_for x) ts ≤ 1
    → count (open_for x) (modify (open_for user_id) asked_again ts) ≤ 1
asked_again_one x user_id ts h =
    omega (
      arith,
      count-modify-le (open_for x) (open_for user_id) asked_again ts (λ a e q. ground arith),
    )

pub shut :
    (x i : Uuid) (ts : List Ticket)
    → count (open_for x) ts ≤ 1
    → count (open_for x) (modify (ticket_has_id i) (with_status closed) ts) ≤ 1
shut x i ts h = omega (
  arith,
  count-modify-le (open_for x) (ticket_has_id i) (with_status closed) ts (λ a e q. ground arith),
)

pub reanswered :
    (x i : Uuid) (t : Ticket) (ts : List Ticket)
    → find (ticket_has_id i) ts ≡ some t
    → is_open t.status ≡ true
    → count (open_for x) ts ≤ 1
    → count (open_for x) (modify (ticket_has_id i) (with_status answered) ts) ≤ 1
reanswered x i t ts found is_one h = omega (
  arith,
  count-modify-le (open_for x) (ticket_has_id i) (with_status answered) ts (λ a e q. ground arith),
)
