-- ===== src/Audit/Tamper.antt =====
-- What a valid chain says of its content: the hash of its last entry determines all of it.
use strat_align.Prelude.{
  ℕ, ◌+◌, Option, none, some, List, [], ◌∷◌, ◌++◌, ◌≡◌, ◌≢◌, refl, ap, sym, ◌∙◌, ◌⊎◌, inl, inr,
  arith, map, In, length, Bool, Bool-cases, true, false,
}
use mathlib.Core.Path.{subst}
use strat_align.Audit.{
  Json, canonicalize, text_or_null, Text, HashableEntry, JournalEntry, Platform, canonical_entry,
  serialize_entry, text_or_empty, same_text, calculate_entry_hash, verify_chain,
}
use strat_align.Audit.Canonical.{Same, joined, turned, canonicalize-Same}
use strat_align.Audit.Chain.{same_text-eq, same_text_self, IsLink, IsChain, valid-IsChain}

-- Two texts with one hash.
abbrev pub Collision : Platform → Type 0
Collision platform = (a b : Text) × (a ≢ b) × (platform.sha256 a ≡ platform.sha256 b)

-- What the hash of an entry is made from.
abbrev pub contents : Platform → List JournalEntry → List Json
contents platform es = map (λ e. canonical_entry platform e.hashed) es

-- Two entries say the same, field by field, with payloads that are one up to the order of members.
pub record SameContent (platform : Platform) (a b : HashableEntry) : Type 0 where
  pub source_event_id : a.source_event_id ≡ b.source_event_id
  pub sequence_number : a.sequence_number ≡ b.sequence_number
  pub event_type : a.event_type ≡ b.event_type
  pub aggregate_type : a.aggregate_type ≡ b.aggregate_type
  pub aggregate_id : a.aggregate_id ≡ b.aggregate_id
  pub payload : Same platform.precedes a.payload b.payload
  pub correlation_id : a.correlation_id ≡ b.correlation_id
  pub actor_user_id : a.actor_user_id ≡ b.actor_user_id
  pub occurred_at : a.occurred_at ≡ b.occurred_at

-- Two journals have as many entries, which say the same one by one.
abbrev pub SameContents : Platform → List JournalEntry → List JournalEntry → Type 0
SameContents platform [] [] = Unit
SameContents platform [] (f ∷ fs) = ⊥
SameContents platform (e ∷ es) [] = ⊥
SameContents platform (e ∷ es) (f ∷ fs) =
    SameContent platform e.hashed f.hashed × SameContents platform es fs

text_or_null-eq : (a b : Option ℕ) → text_or_null a ≡ text_or_null b → a ≡ b
text_or_null-eq none none h = refl
text_or_null-eq none (some b) h = cc
text_or_null-eq (some a) none h = cc
text_or_null-eq (some a) (some b) h = cc

-- Numbers, and times, that are written alike are one.
pub record IsWritable (platform : Platform) : Type 0 where
  pub decimals : (a b : ℕ) → platform.decimal a ≡ platform.decimal b → a ≡ b
  pub times : (a b : ℕ) → platform.iso_string a ≡ platform.iso_string b → a ≡ b

same_canonical :
    (platform : Platform) (v w : Json)
    → canonicalize platform.precedes v ≡ canonicalize platform.precedes w
    → Same platform.precedes v w
same_canonical platform v w h = joined (canonicalize-Same platform.precedes v) (
    subst (λ u. Same platform.precedes u w) (sym h)
      (turned (canonicalize-Same platform.precedes w)))

canonical_entry-SameContent :
    (platform : Platform) (a b : HashableEntry)
    → IsWritable platform
    → canonical_entry platform a ≡ canonical_entry platform b
    → SameContent platform a b
canonical_entry-SameContent platform a b writable h = record {
  source_event_id = text_or_null-eq a.source_event_id b.source_event_id cc;
  sequence_number = writable.decimals a.sequence_number b.sequence_number cc;
  event_type = cc;
  aggregate_type = cc;
  aggregate_id = cc;
  payload = same_canonical platform a.payload b.payload cc;
  correlation_id = text_or_null-eq a.correlation_id b.correlation_id cc;
  actor_user_id = text_or_null-eq a.actor_user_id b.actor_user_id cc;
  occurred_at = writable.times a.occurred_at b.occurred_at cc;
}

contents-SameContents :
    (platform : Platform) (es fs : List JournalEntry)
    → IsWritable platform
    → contents platform es ≡ contents platform fs
    → SameContents platform es fs
contents-SameContents platform [] [] writable h = tt
contents-SameContents platform [] (f ∷ fs) writable h = cc
contents-SameContents platform (e ∷ es) [] writable h = cc
contents-SameContents platform (e ∷ es) (f ∷ fs) writable h = (
  canonical_entry-SameContent platform e.hashed f.hashed writable cc,
  contents-SameContents platform es fs writable cc,
)

-- The hash of the last entry.
abbrev pub head_hash : Option Text → List JournalEntry → Option Text
head_hash previous [] = previous
head_hash previous (e ∷ es) = head_hash (some e.entry_hash) es

abbrev SameShape : Option Text → Option Text → Type 0
SameShape none none = Unit
SameShape (some a) (some b) = length a ≡ length b
SameShape _ _ = ⊥

cons-eq : {a b : ℕ} {x y : Text} → a ≡ b → x ≡ y → a ∷ x ≡ b ∷ y
cons-eq h t = rw (h, t) refl

abbrev first : Text → ℕ
first [] = 0
first (a ∷ x) = a

abbrev tail : Text → Text
tail [] = []
tail (a ∷ x) = x

prefix-eq : (a b x y : Text) → length a ≡ length b → a ++ x ≡ b ++ y → (a ≡ b) × (x ≡ y)
prefix-eq [] [] x y l h = (refl, h)
prefix-eq [] (c ∷ b) x y l h = absurd (omega arith)
prefix-eq (c ∷ a) [] x y l h = absurd (omega arith)
prefix-eq (c ∷ a) (d ∷ b) x y l h =
    let (front, back) = prefix-eq a b x y (omega arith) (ap tail h) in
    (cons-eq (ap first h) front, back)

shape-eq :
    (p q : Option Text) (x y : Text)
    → SameShape p q
    → text_or_empty p ++ x ≡ text_or_empty q ++ y
    → (p ≡ q) × (x ≡ y)
shape-eq none none x y s h = (refl, h)
shape-eq none (some b) x y s h = absurd s
shape-eq (some a) none x y s h = absurd s
shape-eq (some a) (some b) x y s h =
    let (front, back) = prefix-eq a b x y s h in (ap some front, back)

contradiction : {b : Bool} → b ≡ true → b ≡ false → ⊥
contradiction h k = cc

text_cases : (a b : Text) → (a ≡ b) ⊎ (a ≢ b)
text_cases a b = elim (Bool-cases (same_text a b)) [
  | inl same ↦ inl (same_text-eq a b same)
  | inr differ ↦ inr λ e. contradiction (rw (← e) (same_text_self a)) differ
]

module _ (platform : Platform) (digest_length : ℕ)
    (fixed : (x : Text) → length (platform.sha256 x) ≡ digest_length) where
  -- The records that are made of entries of the two journals give one text only if they are one.
  abbrev pub IsFaithful : List JournalEntry → List JournalEntry → Type 0
  IsFaithful es fs =
      (a b : Json)
      → In a (contents platform es)
      → In b (contents platform fs)
      → platform.stringify a ≡ platform.stringify b
      → a ≡ b

  sealed_alike :
      (p q : Option Text) (e f : JournalEntry) (n m : ℕ)
      → SameShape p q
      → IsLink platform p n e
      → IsLink platform q m f
      → e.entry_hash ≡ f.entry_hash
      → (platform.stringify (canonical_entry platform e.hashed)
            ≡ platform.stringify (canonical_entry platform f.hashed)
          → canonical_entry platform e.hashed ≡ canonical_entry platform f.hashed)
      → ((p ≡ q) × (canonical_entry platform e.hashed ≡ canonical_entry platform f.hashed))
        ⊎ Collision platform
  unfolding calculate_entry_hash
  sealed_alike p q e f n m shape le lf same faithful =
      let x = text_or_empty p ++ serialize_entry platform e.hashed in
      let y = text_or_empty q ++ serialize_entry platform f.hashed in
      elim (text_cases x y) [
        | inl one ↦
            let (front, back) =
              shape-eq p q (serialize_entry platform e.hashed) (serialize_entry platform f.hashed)
                shape one in
            inl (front, faithful back)
        | inr two ↦ inr (x, y, two, sym le.sealed ∙ same ∙ lf.sealed)
      ]

  sealed_shape :
      (p q : Option Text) (e f : JournalEntry) (n m : ℕ)
      → IsLink platform p n e
      → IsLink platform q m f
      → length e.entry_hash ≡ length f.entry_hash
  unfolding calculate_entry_hash
  sealed_shape p q e f n m le lf =
      ap length le.sealed ∙ fixed _ ∙ sym (fixed _) ∙ sym (ap length lf.sealed)

  same_contents :
      (p q : Option Text) (n : ℕ) (es fs : List JournalEntry)
      → SameShape p q
      → IsChain platform p n es
      → IsChain platform q n fs
      → length es ≡ length fs
      → IsFaithful es fs
      → head_hash p es ≡ head_hash q fs
      → ((p ≡ q) × (contents platform es ≡ contents platform fs)) ⊎ Collision platform
  same_contents p q n [] [] shape c d l faithful h = inl (h, refl)
  same_contents p q n [] (f ∷ fs) shape c d l faithful h = absurd (omega arith)
  same_contents p q n (e ∷ es) [] shape c d l faithful h = absurd (omega arith)
  same_contents p q n (e ∷ es) (f ∷ fs) shape c d l faithful h =
      elim (same_contents (some e.entry_hash) (some f.entry_hash) (n + 1) es fs
        (sealed_shape p q e f n n c.0 d.0) c.1 d.1 (omega arith)
        (λ a b i j. faithful a b (inr i) (inr j)) h) [
          | inr collision ↦ inr collision
          | inl (last, rest) ↦
              elim (sealed_alike p q e f n n shape c.0 d.0 (ap text_or_empty last)
                (faithful _ _ (inl refl) (inl refl))) [
                  | inr collision ↦ inr collision
                  | inl (before, one) ↦ inl (before, rw (one, rest) refl)
                ]
        ]

  -- Two journals of one length that verifyChain finds valid and whose last entries have one hash
  -- say the same entry by entry, in the source event, the number, the type of the event, the
  -- aggregate's type and identifier, the correlation, the actor, the time, and the payload up to
  -- the order of the members of objects, unless two texts are at hand that SHA-256 gives one hash.
  -- The digests are taken to have one length, toString and toISOString to write different numbers
  -- and times differently, and JSON.stringify to give one text for two records made of the
  -- journals' entries only if they are one.
  pub same_head-SameContents :
      (es fs : List JournalEntry)
      → IsWritable platform
      → (verify_chain platform es).valid ≡ true
      → (verify_chain platform fs).valid ≡ true
      → length es ≡ length fs
      → IsFaithful es fs
      → head_hash none es ≡ head_hash none fs
      → SameContents platform es fs ⊎ Collision platform
  unfolding verify_chain
  same_head-SameContents es fs writable v w l faithful h =
      elim (same_contents none none 1 es fs tt (valid-IsChain platform (length es) none 1 es v)
        (valid-IsChain platform (length fs) none 1 fs w) l faithful h) [
          | inl (start, same) ↦ inl (contents-SameContents platform es fs writable same)
          | inr collision ↦ inr collision
        ]
