-- ===== src/Events/Relay/Rows.antt =====
-- The rows of the outbox under the updates of a pass: their envelopes stay.
use strat_align.Prelude.{
  ℕ, ◌+◌, Bool, true, false, Option, none, some, List, [], ◌∷◌, ◌++◌, ◌≡◌, refl, sym, ap, ◌∙◌, ◌⊎◌,
  inl, inr, arith, In, ◌==◌, if◌then◌else◌, map-In, In-map,
}
use strat_align.Strategy.Cycle.{has}
use strat_align.Events.{
  published, Envelope, DomainEvent, Jobs, record_relay_failure, Pass, settle, mark_published,
}

-- An identifier belongs to one event.
abbrev pub HasIds : List DomainEvent → Type 0
HasIds events =
    (x y : DomainEvent)
    → In x events
    → In y events
    → x.envelope.event_id ≡ y.envelope.event_id
    → x.envelope ≡ y.envelope

-- Rows with the envelopes and statuses of rows that were there.
abbrev pub IsCarried : List DomainEvent → List DomainEvent → Type 0
IsCarried t t' =
    (x' : DomainEvent)
    → In x' t'
    → (x : DomainEvent) × In x t × (x'.envelope ≡ x.envelope) × (x'.status ≡ x.status)

abbrev pub id_of : Envelope → ℕ
id_of envelope = envelope.event_id

-- Every row has one with its envelope.
abbrev pub IsForwarded : List DomainEvent → List DomainEvent → Type 0
IsForwarded t t' =
    (x : DomainEvent) → In x t → (x' : DomainEvent) × In x' t' × (x'.envelope ≡ x.envelope)

abbrev pub failed : ℕ → DomainEvent → DomainEvent
failed message e = record e { attempts = e.attempts + 1; last_error = some message }

pub failed-keeps :
    (b : Bool) (message : ℕ) (x : DomainEvent)
    → ((if b then failed message x else x).envelope ≡ x.envelope)
      × ((if b then failed message x else x).status ≡ x.status)
failed-keeps true message x = (refl, refl)
failed-keeps false message x = (refl, refl)

pub failure-IsCarried :
    (id message : ℕ) (t : List DomainEvent) → IsCarried t (record_relay_failure id message t)
unfolding record_relay_failure
failure-IsCarried id message t x' i =
    let change = λ (e : DomainEvent). if e.envelope.event_id == id then failed message e else e in
    let (x, j, e) = map-In change t x' i in
    let (same_envelope, same_status) = failed-keeps (x.envelope.event_id == id) message x in
    (
      x,
      j,
      ap (λ (d : DomainEvent). d.envelope) e ∙ same_envelope,
      ap (λ (d : DomainEvent). d.status) e ∙ same_status,
    )

pub failure-IsForwarded :
    (id message : ℕ) (t : List DomainEvent) → IsForwarded t (record_relay_failure id message t)
unfolding record_relay_failure
failure-IsForwarded id message t x i =
    let change = λ (e : DomainEvent). if e.envelope.event_id == id then failed message e else e in
    (change x, In-map change t x i, (failed-keeps (x.envelope.event_id == id) message x).0)

pub has-snoc :
    (ids : List ℕ) (a b : ℕ) → has (ids ++ (a ∷ [])) b ≡ true → (has ids b ≡ true) ⊎ (a ≡ b)
has-snoc [] a b h = ground arith
has-snoc (x ∷ ids) a b h = ground (arith, has-snoc ids a b)

-- The rows with the identifier of an event have its envelope.
abbrev pub IsKnown : List DomainEvent → DomainEvent → Type 0
IsKnown t e =
    (x : DomainEvent) → In x t → x.envelope.event_id ≡ e.envelope.event_id → x.envelope ≡ e.envelope

-- And there is one.
abbrev pub IsThere : List DomainEvent → DomainEvent → Type 0
IsThere t e = (x : DomainEvent) × In x t × (x.envelope ≡ e.envelope)

pub carried-IsKnown :
    (t t' : List DomainEvent) (e : DomainEvent) → IsCarried t t' → IsKnown t e → IsKnown t' e
carried-IsKnown t t' e carried known x' i h =
    let (x, j, ex, sx) = carried x' i in ex ∙ known x j (sym (ap id_of ex) ∙ h)

pub forwarded-IsThere :
    (t t' : List DomainEvent) (e : DomainEvent) → IsForwarded t t' → IsThere t e → IsThere t' e
forwarded-IsThere t t' e forward (x, i, same) =
    let (x', j, alike) = forward x i in (x', j, alike ∙ same)

pub settle-IsCarried :
    (id : ℕ) (p : Pass) (r : Option ℕ × Jobs) → IsCarried p.events (settle id p r).events
settle-IsCarried id p (none, jobs) x i = (x, i, refl, refl)
settle-IsCarried id p (some message, jobs) x i = failure-IsCarried id message p.events x i

pub settle-IsForwarded :
    (id : ℕ) (p : Pass) (r : Option ℕ × Jobs) → IsForwarded p.events (settle id p r).events
settle-IsForwarded id p (none, jobs) x i = (x, i, refl)
settle-IsForwarded id p (some message, jobs) x i = failure-IsForwarded id message p.events x i

abbrev pub marked : ℕ → DomainEvent → DomainEvent
marked now e = record e { status = published; published_at = some now }

pub marked-keeps :
    (b : Bool) (now : ℕ) (x : DomainEvent)
    → ((if b then marked now x else x).envelope ≡ x.envelope)
      × ((b ≡ true) ⊎ ((if b then marked now x else x).status ≡ x.status))
marked-keeps true now x = (refl, inl refl)
marked-keeps false now x = (refl, inr refl)

-- What a row was before it was marked.
pub mark_origin :
    (now : ℕ) (ids : List ℕ) (t : List DomainEvent) (x' : DomainEvent)
    → In x' (mark_published now ids t)
    → (x : DomainEvent) × In x t
      × (x'.envelope ≡ x.envelope)
      × ((has ids x.envelope.event_id ≡ true) ⊎ (x'.status ≡ x.status))
unfolding mark_published
mark_origin now ids t x' i =
    let change = λ (e : DomainEvent). if has ids e.envelope.event_id then marked now e else e in
    let (x, j, e) = map-In change t x' i in
    let (same_envelope, or_status) = marked-keeps (has ids x.envelope.event_id) now x in
    (
      x,
      j,
      ap (λ (d : DomainEvent). d.envelope) e ∙ same_envelope,
      elim or_status [
        | inl relayed ↦ inl relayed
        | inr same ↦ inr (ap (λ (d : DomainEvent). d.status) e ∙ same)
      ],
    )

pub mark-IsForwarded :
    (now : ℕ) (ids : List ℕ) (t : List DomainEvent) → IsForwarded t (mark_published now ids t)
unfolding mark_published
mark-IsForwarded now ids t x i =
    let change = λ (e : DomainEvent). if has ids e.envelope.event_id then marked now e else e in
    (change x, In-map change t x i, (marked-keeps (has ids x.envelope.event_id) now x).0)
