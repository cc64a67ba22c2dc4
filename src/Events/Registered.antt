-- ===== src/Events/Registered.antt =====
-- The registry after any registrations: who is interested in an event can be found by its
-- identifier.
use strat_align.Prelude.{
  ℕ, Option, none, some, List, [], ◌∷◌, ◌++◌, ◌≡◌, refl, ◌⊎◌, inl, inr, In, ◌==◌, ok, if◌then◌else◌,
  Outcome, Bool-cases, test_refl, find-snoc, find-append, append-In, ok-cancel,
}
use mathlib.Core.Path.{subst}
use strat_align.Events.{
  EventSubscriber, Registry, Error, empty_registry, find_by_id, push, push_each, add_subscriber,
  register, subscribers_for, Envelope, job_for, dispatch,
}

pub data Registered : Registry → Type 0 where
  nobody : Registered empty_registry
  registers :
      {r r' : Registry} (s : EventSubscriber) → Registered r → register s r ≡ ok r' → Registered r'

push_each-In :
    (types : List ℕ) (s : EventSubscriber) (by_type : ℕ → List EventSubscriber) (t : ℕ)
    (x : EventSubscriber)
    → In x (push_each types s by_type t)
    → (x ≡ s) ⊎ In x (by_type t)
unfolding push_each
push_each-In [] s by_type t x i = inr i
push_each-In (type ∷ types) s by_type t x i =
    elim (push_each-In types s (push type s by_type) t x i) [
      | inl new ↦ inl new
      | inr before ↦ elim (Bool-cases (t == type)) [
        | inl hit ↦
            elim (append-In (by_type t) (s ∷ []) x
              (subst (λ b. In x (if b then by_type t ++ (s ∷ []) else by_type t)) hit before)) [
                | inl old ↦ inr old
                | inr last ↦ elim last [ inl here ↦ inl here | inr nowhere ↦ absurd nowhere ]
              ]
        | inr miss ↦
            inr (subst (λ b. In x (if b then by_type t ++ (s ∷ []) else by_type t)) miss before)
      ]
    ]

abbrev pub IsFound : Registry → Type 0
IsFound r = (t : ℕ) (x : EventSubscriber) → In x (r.by_event_type t) → find_by_id r x.id ≡ some x

added-IsFound :
    (r r' : Registry) (s : EventSubscriber) (o : Option EventSubscriber)
    → find_by_id r s.id ≡ o
    → add_subscriber s r o ≡ ok r'
    → IsFound r
    → IsFound r'
unfolding find_by_id
added-IsFound r r' s (some known) h e found = cc
added-IsFound r r' s none h e found = subst IsFound (ok-cancel e) λ t x i.
    elim (push_each-In s.event_types s r.by_event_type t x i) [
      | inl new ↦ rw new (find-snoc (λ k. k.id == s.id) r.by_id s h (test_refl s.id))
      | inr old ↦ find-append (λ k. k.id == x.id) r.by_id (s ∷ []) x (found t x old)
    ]

Registered-IsFound : {r : Registry} → Registered r → IsFound r
unfolding register
Registered-IsFound nobody t x i = absurd i
Registered-IsFound (registers {r} s before e) t x i =
    added-IsFound r _ s (find_by_id r s.id) refl e (Registered-IsFound before) t x i

-- In a registry that registrations have built, the dispatch of a job that the relay makes for a
-- subscriber of the event's type finds that subscriber, and calls it with the envelope.
pub dispatch_goes :
    {r : Registry} (handle : ℕ → Envelope → Outcome Error (Unit {0})) (envelope : Envelope)
    (s : EventSubscriber)
    → Registered r
    → In s (subscribers_for r envelope.event_type)
    → dispatch r handle (job_for envelope s) ≡ handle s.id envelope
unfolding dispatch subscribers_for
dispatch_goes {r} handle envelope s built i =
    let found : find_by_id r s.id ≡ some s =
      elim (append-In (r.by_event_type envelope.event_type) (r.by_event_type 0) s i) [
        | inl exact ↦ Registered-IsFound built envelope.event_type s exact
        | inr wildcard ↦ Registered-IsFound built 0 s wildcard
      ] in
    rw found refl
