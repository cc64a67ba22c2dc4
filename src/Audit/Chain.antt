-- ===== src/Audit/Chain.antt =====
-- The chain that `verifyChain` checks, and that every journal that `append` has written is one.
use strat_align.Prelude.{
  find-snoc, ℕ, ◌+◌, Bool, true, false, Option, none, some, List, [], ◌∷◌, ◌++◌, ◌≡◌, refl, sym, ap,
  ◌∙◌, ◌==◌, inl, inr, arith, length, if◌then◌else◌, Option-cases, eq_of_test, test_refl,
}
use mathlib.Core.Path.{subst}
use strat_align.Audit.{
  Json, string, object, no_members, member, HashableEntry, text_or_null, Text, text_or_empty,
  AppendJournalEntryInput, JournalEntry, ChainVerificationResult, Platform, same_option, same_text,
  same_hash, calculate_entry_hash, last, find_source, next_sequence, hash_of, hashable_entry,
  new_entry, append, all_checked, verify_from, verify_chain,
}
use strat_align.Audit.Canonical.{IsOrder, Same, canonicalize_lem}

pub same_text-eq : (a b : Text) → same_text a b ≡ true → a ≡ b
same_text-eq [] [] h = refl
same_text-eq [] (y ∷ ys) h = cc
same_text-eq (x ∷ xs) [] h = cc
same_text-eq (x ∷ xs) (y ∷ ys) h = ground (arith, same_text-eq xs ys)

pub same_text_self : (a : Text) → same_text a a ≡ true
same_text_self [] = refl
same_text_self (x ∷ xs) = ground (arith, same_text_self xs)

pub same_hash-eq : (a b : Option Text) → same_hash a b ≡ true → a ≡ b
same_hash-eq none none h = refl
same_hash-eq none (some y) h = cc
same_hash-eq (some x) none h = cc
same_hash-eq (some x) (some y) h = ap some (same_text-eq x y h)

pub same_hash_self : (a : Option Text) → same_hash a a ≡ true
same_hash_self none = refl
same_hash_self (some x) = same_text_self x

pub append-new :
    (platform : Platform) (id : ℕ) (input : AppendJournalEntryInput) (es : List JournalEntry)
    → find_source input.source_event_id es ≡ none
    → append platform id input es
      ≡ (new_entry platform id (last es) input, es ++ (new_entry platform id (last es) input ∷ []))
unfolding append
append-new platform id input es h = rw (h, append) refl

pub append-known :
    (platform : Platform) (id : ℕ) (input : AppendJournalEntryInput) (es : List JournalEntry)
    (e : JournalEntry)
    → find_source input.source_event_id es ≡ some e
    → append platform id input es ≡ (e, es)
unfolding append
append-known platform id input es e h = rw (h, append) refl

-- A check whose other branch is not valid was passed.
passed :
    (b : Bool) (x y : ChainVerificationResult)
    → y.valid ≡ false
    → (if b then x else y).valid ≡ true
    → (b ≡ true) × (x.valid ≡ true)
passed true x y n h = (refl, h)
passed false x y n h = cc

module _ (platform : Platform) where
  -- An entry that follows a hash with the next number.
  pub record IsLink (previous : Option Text) (sequence : ℕ) (e : JournalEntry) : Type 0 where
    pub numbered : e.hashed.sequence_number ≡ sequence
    pub linked : e.previous_hash ≡ previous
    pub sealed : e.entry_hash ≡ calculate_entry_hash platform previous e.hashed

  abbrev pub IsChain : Option Text → ℕ → List JournalEntry → Type 0
  IsChain previous sequence [] = Unit
  IsChain previous sequence (e ∷ es) =
      IsLink previous sequence e × IsChain (some e.entry_hash) (sequence + 1) es

  sealed_test :
      (e : JournalEntry) (previous : Option Text)
      → e.entry_hash ≡ calculate_entry_hash platform previous e.hashed
      → same_text e.entry_hash (calculate_entry_hash platform previous e.hashed) ≡ true
  sealed_test e previous h = rw h (same_text_self (calculate_entry_hash platform previous e.hashed))

  pub verify-IsChain :
      (count : ℕ) (previous : Option Text) (sequence : ℕ) (es : List JournalEntry)
      → IsChain previous sequence es
      → verify_from platform count previous sequence es ≡ all_checked count
  unfolding verify_from
  verify-IsChain count previous sequence [] c = refl
  verify-IsChain count previous sequence (e ∷ es) c =
      rw
        (
          sealed_test e previous c.0.sealed,
          c.0.numbered,
          c.0.linked,
          test_refl sequence,
          same_hash_self previous,
        )
        (verify-IsChain count (some e.entry_hash) (sequence + 1) es c.1)

  pub valid-IsChain :
      (count : ℕ) (previous : Option Text) (sequence : ℕ) (es : List JournalEntry)
      → (verify_from platform count previous sequence es).valid ≡ true
      → IsChain previous sequence es
  unfolding verify_from
  valid-IsChain count previous sequence [] v = tt
  valid-IsChain count previous sequence (e ∷ es) v =
      let (a, v1) = passed (e.hashed.sequence_number == sequence) _ _ refl v in
      let (b, v2) = passed (same_hash e.previous_hash previous) _ _ refl v1 in
      let (c, v3) =
        passed (same_text e.entry_hash (calculate_entry_hash platform previous e.hashed)) _ _ refl
          v2 in
      (
        record {
          numbered = eq_of_test e.hashed.sequence_number sequence a;
          linked = same_hash-eq e.previous_hash previous b;
          sealed = same_text-eq e.entry_hash (calculate_entry_hash platform previous e.hashed) c;
        },
        valid-IsChain count (some e.entry_hash) (sequence + 1) es v3,
      )

  snoc-IsChain :
      (previous : Option Text) (sequence : ℕ) (es : List JournalEntry) (e n : JournalEntry)
      → IsChain previous sequence (e ∷ es)
      → ((l : JournalEntry)
          → last (e ∷ es) ≡ some l
          → IsLink (some l.entry_hash) (l.hashed.sequence_number + 1) n)
      → IsChain previous sequence ((e ∷ es) ++ (n ∷ []))
  snoc-IsChain previous sequence [] e n c next = (c.0, (rw (← c.0.numbered) (next e refl), tt))
  snoc-IsChain previous sequence (f ∷ es) e n c next =
      (c.0, snoc-IsChain (some e.entry_hash) (sequence + 1) es f n c.1 next)

  -- The database gives a value back up to the order of members whose keys localeCompare tells
  -- apart.
  module _ (order : IsOrder platform.precedes)
      (kept : (v : Json) → Same platform.precedes v (platform.stored v)) where
    abbrev with_payload : HashableEntry → Json → Json
    with_payload e v = object (
        member 1 (text_or_null e.source_event_id) (
          member 2 (string (platform.decimal e.sequence_number)) (
            member 3 (string e.event_type) (
              member 4 (string e.aggregate_type) (
                member 5 (string e.aggregate_id) (
                  member 6 v (
                    member 7 (text_or_null e.correlation_id) (
                      member 8 (text_or_null e.actor_user_id)
                        (member 9 (string (platform.iso_string e.occurred_at)) no_members)))))))))

    new_entry-IsLink :
        (id : ℕ) (l : Option JournalEntry) (input : AppendJournalEntryInput)
        → IsLink (hash_of l) (next_sequence l) (new_entry platform id l input)
    unfolding new_entry calculate_entry_hash
    new_entry-IsLink id l input = record {
      numbered = refl;
      linked = refl;
      sealed =
          ap
            (λ v. platform.sha256 (
              text_or_empty (hash_of l)
              ++ platform.stringify (with_payload (hashable_entry input (next_sequence l)) v)))
            (canonicalize_lem platform.precedes order (kept input.payload));
    }

    added-IsChain :
        (id : ℕ) (input : AppendJournalEntryInput) (es : List JournalEntry)
        → IsChain none 1 es
        → IsChain none 1 (es ++ (new_entry platform id (last es) input ∷ []))
    added-IsChain id input [] c = (new_entry-IsLink id none input, tt)
    added-IsChain id input (e ∷ es) c =
        snoc-IsChain none 1 es e (new_entry platform id (last (e ∷ es)) input) c
          λ l is_last. rw is_last (new_entry-IsLink id (some l) input)

    -- The journals that calls of `append` write, whatever they append.
    pub data Written : List JournalEntry → Type 0 where
      empty : Written []
      appended :
          {es : List JournalEntry} (id : ℕ) (input : AppendJournalEntryInput)
          → Written es
          → Written (append platform id input es).1

    append-IsChain :
        (id : ℕ) (input : AppendJournalEntryInput) (es : List JournalEntry)
        → IsChain none 1 es
        → IsChain none 1 (append platform id input es).1
    append-IsChain id input es c = elim (Option-cases (find_source input.source_event_id es)) [
      | inl new ↦
          subst (λ r. IsChain none 1 r.1) (sym (append-new platform id input es new))
            (added-IsChain id input es c)
      | inr (e, known) ↦
          subst (λ r. IsChain none 1 r.1) (sym (append-known platform id input es e known)) c
    ]

    pub Written-IsChain : {es : List JournalEntry} → Written es → IsChain none 1 es
    Written-IsChain empty = tt
    Written-IsChain (appended id input w) = append-IsChain id input _ (Written-IsChain w)

    -- Every journal that calls of `append` have written, in a column that may reorder the members
    -- of JSON objects whose keys localeCompare tells apart, is found valid by `verifyChain`, which
    -- then has checked all of its entries.
    pub Written-verifies :
        {es : List JournalEntry} → Written es → verify_chain platform es ≡ all_checked (length es)
    unfolding verify_chain
    Written-verifies {es} w = verify-IsChain (length es) none 1 es (Written-IsChain w)

find_source-snoc :
    (source : ℕ) (es : List JournalEntry) (n : JournalEntry)
    → find_source (some source) es ≡ none
    → n.hashed.source_event_id ≡ some source
    → find_source (some source) (es ++ (n ∷ [])) ≡ some n
unfolding find_source
find_source-snoc source es n h k =
    find-snoc (λ e. same_option e.hashed.source_event_id (some source)) es n h
      (rw k (test_refl source))

new_source :
    (platform : Platform) (id : ℕ) (l : Option JournalEntry) (input : AppendJournalEntryInput)
    → (new_entry platform id l input).hashed.source_event_id ≡ input.source_event_id
unfolding new_entry
new_source platform id l input = refl

-- Appending for a source event that was just appended, whatever else the call brings, returns the
-- entry of the first call and leaves the journal as that call left it.
pub append_again :
    (platform : Platform) (id id' source : ℕ) (input input' : AppendJournalEntryInput)
    (es : List JournalEntry)
    → input.source_event_id ≡ some source
    → input'.source_event_id ≡ some source
    → append platform id' input' (append platform id input es).1 ≡ append platform id input es
append_again platform id id' source input input' es a b =
    elim (Option-cases (find_source input.source_event_id es)) [
      | inl new ↦
          let n = new_entry platform id (last es) input in
          subst (λ r. append platform id' input' r.1 ≡ r)
            (sym (append-new platform id input es new))
            (append-known platform id' input' (es ++ (n ∷ [])) n (
              subst (λ s. find_source s (es ++ (n ∷ [])) ≡ some n) (sym b)
                (find_source-snoc source es n (subst (λ s. find_source s es ≡ none) a new)
                  (new_source platform id (last es) input ∙ a))))
      | inr (e, known) ↦
          subst (λ r. append platform id' input' r.1 ≡ r)
            (sym (append-known platform id input es e known))
            (append-known platform id' input' es e
              (subst (λ s. find_source s es ≡ some e) (a ∙ sym b) known))
    ]
