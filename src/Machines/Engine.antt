-- ===== src/Machines/Engine.antt =====
-- What packages/machines/src asks of the state machine library (xstate), which is not in the
-- repository: the shape of a flat machine, and an interface that runs it. The laws of `Engine` are
-- the library's documented behaviour for such a machine: an actor in a final state takes no event,
-- the transition of the active state is tried before the one at the root, a transition is taken
-- when its guard passes or it has none, a taken transition runs its actions in order, and any other
-- event changes nothing.
use strat_align.Prelude.{
  Bool, true, false, Option, none, some, List, [], ◌≡◌, refl, ◌⊎◌, inl, inr, Bool-cases,
  if◌then◌else◌,
}

-- A transition with no target stays where it is.
pub record Transition (S G A : Type 0) : Type 0 where
  pub target : Option S
  pub guard : Option G
  pub actions : List A

pub record StateNode (S E G A : Type 0) : Type 0 where
  pub is_final : Bool
  pub on : E → Option (Transition S G A)

pub record Machine (S E G A : Type 0) : Type 0 where
  pub initial : S
  pub root : E → Option (Transition S G A)
  pub node : S → StateNode S E G A

abbrev pub passes : {G : Type 0} → (G → Bool) → Option G → Bool
passes guard none = true
passes guard (some g) = guard g

abbrev pub landing : {S : Type 0} → S → Option S → S
landing s none = s
landing s (some t) = t

-- No transition, or one whose guard fails.
abbrev pub IsBlocked : {S G A : Type 0} → (G → Bool) → Option (Transition S G A) → Type 0
IsBlocked guard none = Unit
IsBlocked guard (some t) = passes guard t.guard ≡ false

pub record Engine (S E G A : Type 0) : Type 0 where
  pub start : Machine S E G A → S
  pub send : Machine S E G A → (G → Bool) → S → E → S × List A
  pub start_lem : (m : Machine S E G A) → start m ≡ m.initial
  pub send-final :
      (m : Machine S E G A) (guard : G → Bool) (s : S) (e : E)
      → (m.node s).is_final ≡ true
      → send m guard s e ≡ (s, [])
  pub send-taken :
      (m : Machine S E G A) (guard : G → Bool) (s : S) (e : E) (t : Transition S G A)
      → (m.node s).is_final ≡ false
      → (m.node s).on e ≡ some t
      → passes guard t.guard ≡ true
      → send m guard s e ≡ (landing s t.target, t.actions)
  pub send-root :
      (m : Machine S E G A) (guard : G → Bool) (s : S) (e : E) (t : Transition S G A)
      → (m.node s).is_final ≡ false
      → IsBlocked guard ((m.node s).on e)
      → m.root e ≡ some t
      → passes guard t.guard ≡ true
      → send m guard s e ≡ (landing s t.target, t.actions)
  pub send-ignored :
      (m : Machine S E G A) (guard : G → Bool) (s : S) (e : E)
      → (m.node s).is_final ≡ false
      → IsBlocked guard ((m.node s).on e)
      → IsBlocked guard (m.root e)
      → send m guard s e ≡ (s, [])

-- What the laws amount to.
module _ {S G A : Type 0} where
  abbrev pub try_transition : (G → Bool) → S → Option (Transition S G A) → S × List A → S × List A
  try_transition guard s none otherwise = otherwise
  try_transition guard s (some t) otherwise =
      if passes guard t.guard then (landing s t.target, t.actions) else otherwise

  try_taken :
      (guard : G → Bool) (o : Option (Transition S G A))
      → IsBlocked guard o ⊎ ((t : Transition S G A) × (o ≡ some t) × (passes guard t.guard ≡ true))
  try_taken guard none = inl tt
  try_taken guard (some t) = elim (Bool-cases (passes guard t.guard)) [
    | inl taken ↦ inr (t, refl, taken)
    | inr blocked ↦ inl blocked
  ]

  try_blocked :
      (guard : G → Bool) (s : S) (o : Option (Transition S G A)) (otherwise : S × List A)
      → IsBlocked guard o
      → try_transition guard s o otherwise ≡ otherwise
  try_blocked guard s none otherwise b = refl
  try_blocked guard s (some t) otherwise b = rw b

module _ {S E G A : Type 0} where
  unfoldable pub next : Machine S E G A → (G → Bool) → S → E → S × List A
  next m guard s e =
      if (m.node s).is_final
      then (s, [])
      else try_transition guard s ((m.node s).on e) (try_transition guard s (m.root e) (s, []))

  pub send-next :
      (engine : Engine S E G A) (m : Machine S E G A) (guard : G → Bool) (s : S) (e : E)
      → engine.send m guard s e ≡ next m guard s e
  unfolding next
  send-next engine m guard s e = elim (Bool-cases (m.node s).is_final) [
    | inl final ↦ rw final (engine.send-final m guard s e final)
    | inr live ↦ elim (try_taken guard ((m.node s).on e)) [
      | inr (t, here, taken) ↦
          rw (live, here, taken) (engine.send-taken m guard s e t live here taken)
      | inl blocked ↦
          rw (live, try_blocked guard s ((m.node s).on e) _ blocked)
            (elim (try_taken guard (m.root e)) [
              | inr (t, root, taken) ↦
                  rw (root, taken) (engine.send-root m guard s e t live blocked root taken)
              | inl ignored ↦
                  rw (try_blocked guard s (m.root e) _ ignored)
                    (engine.send-ignored m guard s e live blocked ignored)
            ])
    ]
  ]

  pub next_final :
      (m : Machine S E G A) (guard : G → Bool) (s : S) (e : E)
      → (m.node s).is_final ≡ true
      → next m guard s e ≡ (s, [])
  unfolding next
  next_final m guard s e h = rw h

  pub next_taken :
      (m : Machine S E G A) (guard : G → Bool) (s : S) (e : E) (t : Transition S G A)
      → (m.node s).is_final ≡ false
      → (m.node s).on e ≡ some t
      → passes guard t.guard ≡ true
      → next m guard s e ≡ (landing s t.target, t.actions)
  unfolding next
  next_taken m guard s e t live here taken = rw (live, here, taken)

  pub next_root :
      (m : Machine S E G A) (guard : G → Bool) (s : S) (e : E) (t : Transition S G A)
      → (m.node s).is_final ≡ false
      → IsBlocked guard ((m.node s).on e)
      → m.root e ≡ some t
      → passes guard t.guard ≡ true
      → next m guard s e ≡ (landing s t.target, t.actions)
  unfolding next
  next_root m guard s e t live blocked root taken =
      rw (live, try_blocked guard s ((m.node s).on e) _ blocked, root, taken)

  pub next_ignored :
      (m : Machine S E G A) (guard : G → Bool) (s : S) (e : E)
      → (m.node s).is_final ≡ false
      → IsBlocked guard ((m.node s).on e)
      → IsBlocked guard (m.root e)
      → next m guard s e ≡ (s, [])
  unfolding next
  next_ignored m guard s e live blocked ignored =
      rw (live, try_blocked guard s ((m.node s).on e) _ blocked)
        (try_blocked guard s (m.root e) _ ignored)

  -- An engine that does just that.
  abbrev pub reference_engine : Engine S E G A
  reference_engine = record {
    start = λ m. m.initial;
    send = next;
    start_lem = λ m. refl;
    send-final = next_final;
    send-taken = next_taken;
    send-root = next_root;
    send-ignored = next_ignored;
  }
