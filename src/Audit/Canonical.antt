-- ===== src/Audit/Canonical.antt =====
-- `canonicalize` forgets the order of the members of objects, which a column of JSON values does
-- not keep.
use strat_align.Prelude.{
  ℕ, Bool, true, false, ◌≡◌, ◌⊎◌, inl, inr, refl, sym, ap, ◌∙◌, arith, Bool-cases,
}
use strat_align.Audit.{
  Json, null, boolean, number, string, array, object, Items, no_items, item, Members, no_members,
  member, insert, canonicalize, canonicalize_items, canonicalize_members,
}

-- What `localeCompare` keeps: no two keys precede each other, and a key between two others, one of
-- which precedes the other, is told apart from one of them at least.
pub record IsOrder (precedes : ℕ → ℕ → Bool) : Type 0 where
  pub one_way : (k l : ℕ) → precedes k l ≡ true → precedes l k ≡ false
  pub between : (k l m : ℕ) → precedes k m ≡ true → (precedes k l ≡ true) ⊎ (precedes l m ≡ true)

module _ (precedes : ℕ → ℕ → Bool) where
  -- The order tells two keys apart.
  abbrev pub IsApart : ℕ → ℕ → Type 0
  IsApart k l = (precedes k l ≡ true) ⊎ (precedes l k ≡ true)

  -- The same value up to the order of members of its objects whose keys the order tells apart.
  mutual
    pub data Same : Json → Json → Type 0 where
      same : {v : Json} → Same v v
      turned : {v w : Json} → Same v w → Same w v
      joined : {u v w : Json} → Same u v → Same v w → Same u w
      same_array : {a b : Items} → SameItems a b → Same (array a) (array b)
      same_object : {a b : Members} → SameMembers a b → Same (object a) (object b)

    pub data SameItems : Items → Items → Type 0 where
      same_none : SameItems no_items no_items
      same_item :
          {v w : Json} {a b : Items} → Same v w → SameItems a b → SameItems (item v a) (item w b)

    pub data SameMembers : Members → Members → Type 0 where
      same_empty : SameMembers no_members no_members
      same_member :
          {k : ℕ} {v w : Json} {a b : Members}
          → Same v w
          → SameMembers a b
          → SameMembers (member k v a) (member k w b)
      swap :
          {k l : ℕ} {v w : Json} {a : Members}
          → IsApart k l
          → SameMembers (member k v (member l w a)) (member l w (member k v a))
      after : {a b c : Members} → SameMembers a b → SameMembers b c → SameMembers a c

  same_members : (a : Members) → SameMembers a a
  same_members no_members = same_empty
  same_members (member k v a) = same_member same (same_members a)

  insert-SameMembers :
      (k : ℕ) (v : Json) (ms : Members) → SameMembers (member k v ms) (insert precedes k v ms)
  insert-SameMembers k v no_members = same_members (member k v no_members)
  insert-SameMembers k v (member l w ms) = elim (Bool-cases (precedes l k)) [
    | inl before ↦
        rw before (after (swap (inr before)) (same_member same (insert-SameMembers k v ms)))
    | inr first ↦ rw first (same_members (member k v (member l w ms)))
  ]

  mutual
    unfolding canonicalize

    -- `canonicalize` gives the same value.
    pub canonicalize-Same : (v : Json) → Same v (canonicalize precedes v)
    canonicalize-Same null = same
    canonicalize-Same (boolean b) = same
    canonicalize-Same (number n) = same
    canonicalize-Same (string s) = same
    canonicalize-Same (array items) = same_array (canonicalize_items-SameItems items)
    canonicalize-Same (object members) = same_object (canonicalize_members-SameMembers members)

    canonicalize_items-SameItems :
        (items : Items) → SameItems items (canonicalize_items precedes items)
    canonicalize_items-SameItems no_items = same_none
    canonicalize_items-SameItems (item v items) =
        same_item (canonicalize-Same v) (canonicalize_items-SameItems items)

    canonicalize_members-SameMembers :
        (ms : Members) → SameMembers ms (canonicalize_members precedes ms)
    canonicalize_members-SameMembers no_members = same_empty
    canonicalize_members-SameMembers (member k v ms) =
        after (same_member (canonicalize-Same v) (canonicalize_members-SameMembers ms))
          (insert-SameMembers k (canonicalize precedes v) (canonicalize_members precedes ms))

  module _ (order : IsOrder precedes) where
    insert_comm :
        (k l : ℕ) (v w : Json) (ms : Members)
        → IsApart k l
        → insert precedes k v (insert precedes l w ms)
          ≡ insert precedes l w (insert precedes k v ms)
    insert_comm k l v w no_members d = ground (arith, order.one_way k l, order.one_way l k)
    insert_comm k l v w (member m u ms) d = ground (
      arith,
      insert_comm k l v w ms d,
      order.one_way k l,
      order.one_way l k,
      order.between m l k,
      order.between m k l,
    )

    mutual
      unfolding canonicalize

      pub canonicalize_lem :
          {v w : Json} → Same v w → canonicalize precedes v ≡ canonicalize precedes w
      canonicalize_lem same = refl
      canonicalize_lem (turned h) = sym (canonicalize_lem h)
      canonicalize_lem (joined h t) = canonicalize_lem h ∙ canonicalize_lem t
      canonicalize_lem (same_array h) = ap array (canonicalize_items_lem h)
      canonicalize_lem (same_object h) = ap object (canonicalize_members_lem h)

      pub canonicalize_items_lem :
          {a b : Items}
          → SameItems a b
          → canonicalize_items precedes a ≡ canonicalize_items precedes b
      canonicalize_items_lem same_none = refl
      canonicalize_items_lem (same_item h t) =
          rw (canonicalize_lem h, canonicalize_items_lem t) refl

      pub canonicalize_members_lem :
          {a b : Members}
          → SameMembers a b
          → canonicalize_members precedes a ≡ canonicalize_members precedes b
      canonicalize_members_lem same_empty = refl
      canonicalize_members_lem (same_member h t) =
          rw (canonicalize_lem h, canonicalize_members_lem t) refl
      canonicalize_members_lem (swap {k} {l} {v} {w} {a} d) =
          insert_comm k l (canonicalize precedes v) (canonicalize precedes w)
            (canonicalize_members precedes a) d
      canonicalize_members_lem (after h t) = canonicalize_members_lem h ∙ canonicalize_members_lem t
