-- ===== src/Audit.antt =====
-- The journal of audit entries, apps/backend/src/modules/audit/journal.service.ts: `append` and
-- `verifyChain`. SHA-256, `JSON.stringify`, the order of `localeCompare` and the column of JSON
-- values are parameters. Texts that are hashed are lists of character codes, other texts are
-- numbers.
pub mod Canonical
pub mod Chain
pub mod Tamper
mod Tests
use strat_align.Prelude.{
  ℕ, suc, ◌+◌, ◌-◌, Bool, true, false, Option, none, some, List, [], ◌∷◌, ◌++◌, ◌≡◌, ◌==◌, ◌&&◌,
  ltb, if◌then◌else◌, length, find,
}

-- A JSON value: the items of an array and the members of an object are lists of values.
mutual
  pub data Json : Type 0 where
    null : Json
    boolean : Bool → Json
    number string : ℕ → Json
    array : Items → Json
    object : Members → Json

  pub data Items : Type 0 where
    no_items : Items
    item : Json → Items → Items

  pub data Members : Type 0 where
    no_members : Members
    member : ℕ → Json → Members → Members

-- `sort` by the keys, which is stable; `precedes k l` says that `localeCompare` is negative for
-- them, and it may be 0 for two keys that differ.
module _ (precedes : ℕ → ℕ → Bool) where
  abbrev pub insert : ℕ → Json → Members → Members
  insert k v no_members = member k v no_members
  insert k v (member k' v' ms) =
      let rest = insert k v ms in
      if precedes k' k then member k' v' rest else member k v (member k' v' ms)

  unfoldable mutual
    pub canonicalize : Json → Json
    canonicalize (array items) = array (canonicalize_items items)
    canonicalize (object members) = object (canonicalize_members members)
    canonicalize null = null
    canonicalize (boolean b) = boolean b
    canonicalize (number n) = number n
    canonicalize (string s) = string s

    pub canonicalize_items : Items → Items
    canonicalize_items no_items = no_items
    canonicalize_items (item v rest) = item (canonicalize v) (canonicalize_items rest)

    pub canonicalize_members : Members → Members
    canonicalize_members no_members = no_members
    canonicalize_members (member k v rest) = insert k (canonicalize v) (canonicalize_members rest)

abbrev pub Text : Type 0
Text = List ℕ

-- `AppendJournalEntryInput`; an identifier of a source event that is given is not empty.
pub record AppendJournalEntryInput : Type 0 where
  pub source_event_id : Option ℕ
  pub event_type : ℕ
  pub aggregate_type : ℕ
  pub aggregate_id : ℕ
  pub payload : Json
  pub correlation_id : Option ℕ
  pub actor_user_id : Option ℕ
  pub occurred_at : ℕ

pub record HashableEntry : Type 0 where
  pub source_event_id : Option ℕ
  pub sequence_number : ℕ
  pub event_type : ℕ
  pub aggregate_type : ℕ
  pub aggregate_id : ℕ
  pub payload : Json
  pub correlation_id : Option ℕ
  pub actor_user_id : Option ℕ
  pub occurred_at : ℕ

-- A row of `journalEntry`.
pub record JournalEntry : Type 0 where
  pub id : ℕ
  pub hashed : HashableEntry
  pub previous_hash : Option Text
  pub entry_hash : Text

-- The hash, `localeCompare` of two keys, `JSON.stringify`, `toString` of a number, `toISOString` of
-- a time, and the value that the database gives back for a JSON value that is written.
pub record Platform : Type 0 where
  pub sha256 : Text → Text
  pub precedes : ℕ → ℕ → Bool
  pub stringify : Json → Text
  pub decimal : ℕ → ℕ
  pub iso_string : ℕ → ℕ
  pub stored : Json → Json

abbrev pub text_or_null : Option ℕ → Json
text_or_null none = null
text_or_null (some text) = string text

-- The record that `serializeEntry` makes, whose nine keys are numbered in their order:
-- sourceEventId, sequenceNumber, eventType, aggregateType, aggregateId, payload, correlationId,
-- actorUserId and occurredAt.
abbrev pub canonical_entry : Platform → HashableEntry → Json
canonical_entry platform entry = object (
    member 1 (text_or_null entry.source_event_id) (
      member 2 (string (platform.decimal entry.sequence_number)) (
        member 3 (string entry.event_type) (
          member 4 (string entry.aggregate_type) (
            member 5 (string entry.aggregate_id) (
              member 6 (canonicalize platform.precedes entry.payload) (
                member 7 (text_or_null entry.correlation_id) (
                  member 8 (text_or_null entry.actor_user_id)
                    (member 9 (string (platform.iso_string entry.occurred_at)) no_members)))))))))

abbrev pub serialize_entry : Platform → HashableEntry → Text
serialize_entry platform entry = platform.stringify (canonical_entry platform entry)

abbrev pub text_or_empty : Option Text → Text
text_or_empty none = []
text_or_empty (some text) = text

unfoldable pub calculate_entry_hash : Platform → Option Text → HashableEntry → Text
calculate_entry_hash platform previous_hash entry =
    platform.sha256 (text_or_empty previous_hash ++ serialize_entry platform entry)

abbrev pub same_option : Option ℕ → Option ℕ → Bool
same_option none none = true
same_option (some a) (some b) = a == b
same_option _ _ = false

abbrev pub same_text : Text → Text → Bool
same_text [] [] = true
same_text (x ∷ xs) (y ∷ ys) = x == y && same_text xs ys
same_text _ _ = false

abbrev pub same_hash : Option Text → Option Text → Bool
same_hash none none = true
same_hash (some a) (some b) = same_text a b
same_hash _ _ = false

-- The rows of the journal are listed by their sequence number, as the queries give them.
abbrev pub last : List JournalEntry → Option JournalEntry
last [] = none
last (e ∷ []) = some e
last (e ∷ f ∷ es) = last (f ∷ es)

-- `findUnique` by the identifier of the source event
unfoldable pub find_source : Option ℕ → List JournalEntry → Option JournalEntry
find_source none entries = none
find_source (some s) entries = find (λ e. same_option e.hashed.source_event_id (some s)) entries

abbrev pub next_sequence : Option JournalEntry → ℕ
next_sequence none = 1
next_sequence (some previous) = previous.hashed.sequence_number + 1

abbrev pub hash_of : Option JournalEntry → Option Text
hash_of none = none
hash_of (some previous) = some previous.entry_hash

abbrev pub hashable_entry : AppendJournalEntryInput → ℕ → HashableEntry
hashable_entry input sequence_number = record {
  source_event_id = input.source_event_id;
  sequence_number = sequence_number;
  event_type = input.event_type;
  aggregate_type = input.aggregate_type;
  aggregate_id = input.aggregate_id;
  payload = input.payload;
  correlation_id = input.correlation_id;
  actor_user_id = input.actor_user_id;
  occurred_at = input.occurred_at;
}

-- The row that `create` writes after the latest row, if any; `id` is the identifier that the
-- database gives it.
unfoldable pub new_entry :
    Platform → ℕ → Option JournalEntry → AppendJournalEntryInput → JournalEntry
new_entry platform id previous input =
    let entry = hashable_entry input (next_sequence previous) in
    record {
      id = id;
      hashed = record entry { payload = platform.stored input.payload };
      previous_hash = hash_of previous;
      entry_hash = calculate_entry_hash platform (hash_of previous) entry;
    }

-- The journal after the call, and the entry that it returns.
unfoldable pub append :
    Platform → ℕ → AppendJournalEntryInput → List JournalEntry → JournalEntry × List JournalEntry
append platform id input entries = elim (find_source input.source_event_id entries) [
  | some existing ↦ (existing, entries)
  | none ↦
      let entry = new_entry platform id (last entries) input in (entry, entries ++ (entry ∷ []))
]

pub data Reason : Type 0 where
  expected_sequence : (expected found : ℕ) → Reason
  previous_differs content_differs : Reason

pub record ChainVerificationResult : Type 0 where
  pub valid : Bool
  pub checked_entries : ℕ
  pub broken_sequence_number : Option ℕ
  pub broken_entry_id : Option ℕ
  pub reason : Option Reason

abbrev pub broken_at : JournalEntry → ℕ → Reason → ChainVerificationResult
broken_at entry checked reason = record {
  valid = false;
  checked_entries = checked;
  broken_sequence_number = some entry.hashed.sequence_number;
  broken_entry_id = some entry.id;
  reason = some reason;
}

abbrev pub all_checked : ℕ → ChainVerificationResult
all_checked count = record {
  valid = true;
  checked_entries = count;
  broken_sequence_number = none;
  broken_entry_id = none;
  reason = none;
}

-- The loop of `verifyChain`, from the hash and the sequence number that it expects next; `count` is
-- the number of all entries.
unfoldable pub verify_from :
    Platform → ℕ → Option Text → ℕ → List JournalEntry → ChainVerificationResult
verify_from platform count previous sequence [] = all_checked count
verify_from platform count previous sequence (entry ∷ entries) =
    let rest = verify_from platform count (some entry.entry_hash) (sequence + 1) entries in
    let expected_hash = calculate_entry_hash platform previous entry.hashed in
    let found = entry.hashed.sequence_number in
    if found == sequence
    then (if same_hash entry.previous_hash previous
        then (if same_text entry.entry_hash expected_hash
            then rest
            else broken_at entry (found - 1) content_differs)
        else broken_at entry (found - 1) previous_differs)
    else broken_at entry (sequence - 1) (expected_sequence sequence found)

unfoldable pub verify_chain : Platform → List JournalEntry → ChainVerificationResult
verify_chain platform entries = verify_from platform (length entries) none 1 entries
