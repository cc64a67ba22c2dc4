-- ===== src/Events/Relay/Batch.antt =====
-- The batch of a pass: pending events of the outbox, and the oldest of them.
use strat_align.Prelude.{
  ℕ, zero, suc, List, [], ◌∷◌, ◌≡◌, refl, inl, inr, arith, In, if◌then◌else◌, keep, In-keep,
  keep-In, ◌≤◌, ◌<◌, ◌⊎◌, leb, ltb, ◌&&◌, Bool-cases,
}
use strat_align.Events.{DomainEvent, pending, is_pending, insert, order, take_events, pending_batch}

pub insert-In :
    (e : DomainEvent) (xs : List DomainEvent) (x : DomainEvent)
    → In x (insert e xs)
    → (x ≡ e) ⊎ In x xs
unfolding insert
insert-In e [] x i = i
insert-In e (y ∷ xs) x i = ground (arith, insert-In e xs x)

order-In : (xs : List DomainEvent) (x : DomainEvent) → In x (order xs) → In x xs
unfolding order
order-In [] x i = i
order-In (e ∷ xs) x i = elim (insert-In e (order xs) x i) [
  | inl here ↦ inl here
  | inr later ↦ inr (order-In xs x later)
]

take-In : (n : ℕ) (xs : List DomainEvent) (x : DomainEvent) → In x (take_events n xs) → In x xs
take-In zero xs x i = absurd i
take-In (suc n) [] x i = i
take-In (suc n) (y ∷ xs) x (inl e) = inl e
take-In (suc n) (y ∷ xs) x (inr i) = inr (take-In n xs x i)

pub batch-In :
    (count size : ℕ) (t : List DomainEvent) (x : DomainEvent)
    → In x (take_events count (pending_batch size t))
    → In x t
unfolding pending_batch
batch-In count size t x i =
    let rows = keep (λ e. is_pending e.status) t in
    (keep-In (λ e. is_pending e.status) t x
      (order-In rows x (take-In size (order rows) x (take-In count _ x i)))).0

-- How many pending events occurred at a time or before it.
abbrev pub pending_until : ℕ → List DomainEvent → ℕ
pending_until time [] = 0
pending_until time (x ∷ xs) =
    let rest = pending_until time xs in
    if is_pending x.status && leb x.envelope.occurred_at time then suc rest else rest

abbrev until : ℕ → List DomainEvent → ℕ
until time [] = 0
until time (x ∷ xs) =
    let rest = until time xs in if leb x.envelope.occurred_at time then suc rest else rest

keep-until :
    (time : ℕ) (t : List DomainEvent)
    → until time (keep (λ e. is_pending e.status) t) ≡ pending_until time t
keep-until time [] = refl
keep-until time (x ∷ t) = ground (arith, keep-until time t)

insert-until :
    (time : ℕ) (e : DomainEvent) (xs : List DomainEvent)
    → until time (insert e xs) ≡ until time (e ∷ xs)
unfolding insert
insert-until time e [] = refl
insert-until time e (x ∷ xs) = ground (arith, insert-until time e xs)

order-until : (time : ℕ) (xs : List DomainEvent) → until time (order xs) ≡ until time xs
unfolding order
order-until time [] = refl
order-until time (e ∷ xs) = ground (arith, insert-until time e (order xs), order-until time xs)

In-insert :
    (e : DomainEvent) (xs : List DomainEvent) (x : DomainEvent)
    → (x ≡ e) ⊎ In x xs
    → In x (insert e xs)
unfolding insert
In-insert e [] x i = i
In-insert e (y ∷ xs) x i = elim (Bool-cases (ltb y.envelope.occurred_at e.envelope.occurred_at)) [
  | inl before ↦ rw before (elim i [
    | inl new ↦ inr (In-insert e xs x (inl new))
    | inr old ↦ elim old [ inl here ↦ inl here | inr later ↦ inr (In-insert e xs x (inr later)) ]
  ])
  | inr first ↦ rw first i
]

In-order : (xs : List DomainEvent) (x : DomainEvent) → In x xs → In x (order xs)
unfolding order
In-order [] x i = i
In-order (e ∷ xs) x i =
    In-insert e (order xs) x
      (elim i [ inl here ↦ inl here | inr later ↦ inr (In-order xs x later) ])

-- The events in the order of their times.
abbrev IsSorted : List DomainEvent → Type 0
IsSorted [] = Unit
IsSorted (x ∷ xs) =
    ((y : DomainEvent) → In y xs → x.envelope.occurred_at ≤ y.envelope.occurred_at) × IsSorted xs

insert-IsSorted : (e : DomainEvent) (xs : List DomainEvent) → IsSorted xs → IsSorted (insert e xs)
unfolding insert
insert-IsSorted e [] s = (λ y i. absurd i, tt)
insert-IsSorted e (x ∷ xs) (least, s) =
    elim (Bool-cases (ltb x.envelope.occurred_at e.envelope.occurred_at)) [
      | inl before ↦
          rw (before, IsSorted)
            (
              λ y i. elim (insert-In e xs y i) [
                | inl new ↦ rw new (ground arith)
                | inr old ↦ least y old
              ],
              insert-IsSorted e xs s,
            )
      | inr first ↦
          rw (first, IsSorted)
            (
              λ y i. elim i [
                | inl here ↦ rw here (ground arith)
                | inr later ↦ ground (arith, least y later)
              ],
              (least, s),
            )
    ]

order-IsSorted : (xs : List DomainEvent) → IsSorted (order xs)
unfolding order
order-IsSorted [] = tt
order-IsSorted (e ∷ xs) = insert-IsSorted e (order xs) (order-IsSorted xs)

until_own :
    (e : DomainEvent) (xs : List DomainEvent) → In e xs → 0 < until e.envelope.occurred_at xs
until_own e [] i = absurd i
until_own e (x ∷ xs) i = elim i [
  | inl here ↦ rw here (ground arith)
  | inr later ↦ ground (arith, until_own e xs later)
]

-- An event is among the first that are taken, if no more occurred at its time or before.
In-take :
    (n : ℕ) (xs : List DomainEvent) (e : DomainEvent)
    → IsSorted xs
    → In e xs
    → until e.envelope.occurred_at xs ≤ n
    → In e (take_events n xs)
In-take n [] e s i h = absurd i
In-take zero (x ∷ xs) e s i h = absurd (omega (arith, until_own e (x ∷ xs) i))
In-take (suc n) (x ∷ xs) e (least, s) (inl here) h = inl here
In-take (suc n) (x ∷ xs) e (least, s) (inr later) h =
    inr (In-take n xs e s later (ground (arith, least e later)))

pub In-pending_batch :
    (n : ℕ) (t : List DomainEvent) (e : DomainEvent)
    → In e t
    → e.status ≡ pending
    → pending_until e.envelope.occurred_at t ≤ n
    → In e (pending_batch n t)
unfolding pending_batch
In-pending_batch n t e i waits h =
    let rows = keep (λ x. is_pending x.status) t in
    let time = e.envelope.occurred_at in
    In-take n (order rows) e (order-IsSorted rows)
      (In-order rows e (In-keep (λ x. is_pending x.status) t e i (rw waits refl)))
      (rw (order-until time rows, keep-until time t) h)
