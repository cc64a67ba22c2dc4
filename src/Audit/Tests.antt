-- ===== src/Audit/Tests.antt =====
-- Runs of the journal, and the theorems at concrete journals.
use strat_align.Prelude.{
  ℕ, ◌+◌, ◌*◌, ◌++◌, Bool, ltb, arith, ◌==◌, if◌then◌else◌, Bool-cases, true, none, some, List, [],
  ◌∷◌, ◌≡◌, ◌⊎◌, refl, In, length, inl, inr, sym, ◌∙◌,
}
use strat_align.Audit.{
  Json, null, boolean, number, string, array, object, Items, no_items, item, Members, no_members,
  member, Text, AppendJournalEntryInput, JournalEntry, Platform, canonicalize, calculate_entry_hash,
  find_source, new_entry, append, all_checked, verify_from, verify_chain, content_differs,
}
use strat_align.Audit.Canonical.{IsOrder, Same, same, same_object, swap}
use strat_align.Audit.Chain.{empty, appended, Written-verifies, append_again}
use strat_align.Audit.Tamper.{Collision, contents, SameContents, same_head-SameContents}

-- A hash of one character, texts that list the parts of a value, an order that does not tell the
-- keys 7 and 8 apart, and a column that turns the first two members of an object around.
abbrev total : Text → ℕ
total [] = 7
total (c ∷ x) = c + (3 * total x)

unfoldable mutual
  write : Json → Text
  write null = 0 ∷ []
  write (boolean b) = 1 ∷ (if b then 1 else 0) ∷ []
  write (number n) = 2 ∷ n ∷ []
  write (string s) = 3 ∷ s ∷ []
  write (array items) = 4 ∷ write_items items
  write (object members) = 5 ∷ write_members members

  write_items : Items → Text
  write_items no_items = 0 ∷ []
  write_items (item v items) = 1 ∷ (write v ++ write_items items)

  write_members : Members → Text
  write_members no_members = 0 ∷ []
  write_members (member k v members) = 1 ∷ k ∷ (write v ++ write_members members)

journal : Unit {0}
unfolding append find_source new_entry calculate_entry_hash canonicalize write verify_from
    verify_chain
journal = tt

abbrev base : ℕ → ℕ
base k = if k == 8 then 7 else k

abbrev precedes : ℕ → ℕ → Bool
precedes k l = ltb (base k) (base l)

abbrev reorder : Json → Json
reorder (object (member k v (member l w ms))) =
    if precedes k l
    then object (member l w (member k v ms))
    else object (member k v (member l w ms))
reorder v = v

abbrev platform : Platform
platform = record {
  sha256 = λ x. total x ∷ [];
  precedes = precedes;
  stringify = write;
  decimal = λ n. n;
  iso_string = λ n. n;
  stored = reorder;
}

order : IsOrder precedes
order = record { one_way = λ k l h. ground arith; between = λ k l m h. ground arith }

abbrev payload : Json
payload = object (member 1 (number 5) (member 2 (boolean true) no_members))

abbrev input : ℕ → AppendJournalEntryInput
input source = record {
  source_event_id = some source;
  event_type = 4;
  aggregate_type = 2;
  aggregate_id = 9;
  payload = payload;
  correlation_id = none;
  actor_user_id = some 3;
  occurred_at = 1000 + source;
}

abbrev first_entry : List JournalEntry
first_entry = (append platform 51 (input 1) []).1

abbrev two_entries : List JournalEntry
two_entries = (append platform 52 (input 2) first_entry).1

runs :
    (length two_entries ≡ 2)
    × (verify_chain platform two_entries ≡ all_checked 2)
    × ((append platform 53 (input 2) two_entries).1 ≡ two_entries)
    × (canonicalize precedes (object (member 9 null (member 3 null no_members)))
        ≡ object (member 3 null (member 9 null no_members)))
    × (canonicalize precedes (object (member 8 null (member 7 null no_members)))
        ≡ object (member 8 null (member 7 null no_members)))
unfolding journal
runs = (refl, refl, refl, refl, refl)

kept : (v : Json) → Same precedes v (reorder v)
kept (object (member k v (member l w ms))) = elim (Bool-cases (precedes k l)) [
  | inl first ↦ rw first (same_object (swap (inl first)))
  | inr other ↦ rw other same
]
kept (object (member k v no_members)) = same
kept (object no_members) = same
kept null = same
kept (boolean b) = same
kept (number n) = same
kept (string s) = same
kept (array vs) = same

Written-verifies_example : verify_chain platform two_entries ≡ all_checked (length two_entries)
Written-verifies_example =
    Written-verifies platform order kept (appended 52 (input 2) (appended 51 (input 1) empty))

append_again_example :
    append platform 53 (input 2) two_entries ≡ append platform 52 (input 2) first_entry
append_again_example = append_again platform 52 53 2 (input 2) (input 2) first_entry refl refl

-- A journal whose payload has another order of members, and one with a changed time.
abbrev reordered : List JournalEntry → List JournalEntry
reordered [] = []
reordered (e ∷ es) = record e { hashed = record (e.hashed) { payload = payload } } ∷ es

abbrev backdated : List JournalEntry → List JournalEntry
backdated [] = []
backdated (e ∷ es) = record e { hashed = record (e.hashed) { occurred_at = 1 } } ∷ es

found : (verify_chain platform (backdated two_entries)).reason ≡ some content_differs
unfolding journal
found = refl

faithful :
    (a b : Json)
    → In a (contents platform first_entry)
    → In b (contents platform (reordered first_entry))
    → write a ≡ write b
    → a ≡ b
unfolding journal
faithful a b (inl i) (inl j) same_text = i ∙ sym j
faithful a b (inr i) j same_text = absurd i
faithful a b (inl i) (inr j) same_text = absurd j

same_head-SameContents_example :
    SameContents platform first_entry (reordered first_entry) ⊎ Collision platform
unfolding journal
same_head-SameContents_example =
    same_head-SameContents platform 1 (λ x. refl) first_entry (reordered first_entry)
      (record { decimals = λ a b h. h; times = λ a b h. h }) refl refl refl faithful refl
