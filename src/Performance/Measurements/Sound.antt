-- ===== src/Performance/Measurements/Sound.antt =====
-- The measurements after any calls of `record`: every series has one effective row.
use strat_align.Prelude.{
  ℕ, Bool, true, false, Option, none, some, List, [], ◌∷◌, ◌≡◌, ◌≢◌, refl, sym, ap, ◌∙◌, ◌⊎◌, inl,
  inr, arith, In, ◌&&◌, ◌||◌, Bool-cases, eq_of_test, test_refl, and_true, or_true,
}
use mathlib.Core.Path.{subst}
use strat_align.Performance.Measurements.{Series, feed, Measurement, is_id, is_superseded}
use strat_align.Performance.Measurements.Effective.{IsEffective}

-- An identifier belongs to one row; a series that has rows has one that no row supersedes, and just
-- one; and a row that supersedes another follows one of its series, which no other row supersedes,
-- and comes from a feed if that one is locked.
pub record IsSound (t : List Measurement) : Type 0 where
  pub ids : (x y : Measurement) → In x t → In y t → x.id ≡ y.id → x ≡ y
  pub some_effective : (x : Measurement) → In x t → (e : Measurement) × IsEffective x.series t e
  pub one_effective :
      (series : Series) (x y : Measurement)
      → IsEffective series t x
      → IsEffective series t y
      → x ≡ y
  pub linked :
      (x : Measurement) (k : ℕ)
      → In x t
      → x.supersedes_id ≡ some k
      → (y : Measurement) × In y t
        × (y.id ≡ k)
        × (y.series ≡ x.series)
        × ((y.locked ≡ true) → (x.source ≡ feed))
  pub linear :
      (x y : Measurement) (k : ℕ)
      → In x t
      → In y t
      → x.supersedes_id ≡ some k
      → y.supersedes_id ≡ some k
      → x ≡ y

-- What the checks leave of a row that is added.
pub data Added (t : List Measurement) (n : Measurement) : Type 0 where
  opens : n.supersedes_id ≡ none → ((e : Measurement) → ¬ IsEffective n.series t e) → Added t n
  corrects :
      (target : Measurement)
      → n.supersedes_id ≡ some target.id
      → IsEffective n.series t target
      → ((target.locked ≡ true) → (n.source ≡ feed))
      → Added t n

superseded-cons :
    (n m : Measurement) (t : List Measurement)
    → is_superseded none (n ∷ t) m ≡ false
    → (is_id n.supersedes_id m.id ≡ false) × (is_superseded none t m ≡ false)
unfolding is_superseded
superseded-cons n m t h = ground arith

cons-superseded :
    (n m : Measurement) (t : List Measurement)
    → is_id n.supersedes_id m.id ≡ false
    → is_superseded none t m ≡ false
    → is_superseded none (n ∷ t) m ≡ false
unfolding is_superseded
cons-superseded n m t a b = rw a b

is_id-true : (o : Option ℕ) (k : ℕ) → is_id o k ≡ true → o ≡ some k
is_id-true none k h = cc
is_id-true (some a) k h = ap some (eq_of_test a k h)

or_right : (a : Bool) {b : Bool} → b ≡ true → (a || b) ≡ true
or_right true h = refl
or_right false h = h

differs : {b : Bool} → b ≡ true → b ≡ false → ⊥
differs h k = cc

some-cancel : {a b : ℕ} → some a ≡ some b → a ≡ b
some-cancel h = cc

no_id : {o : Option ℕ} (k : ℕ) → o ≡ none → is_id o k ≡ false
no_id k h = rw h refl

own_id : {o : Option ℕ} {k : ℕ} → o ≡ some k → is_id o k ≡ true
own_id {o} {k} h = rw h (test_refl k)

superseded-In :
    (t : List Measurement) (m : Measurement)
    → is_superseded none t m ≡ true
    → (s : Measurement) × In s t × (s.supersedes_id ≡ some m.id)
unfolding is_superseded
superseded-In [] m h = cc
superseded-In (s ∷ t) m h =
    elim (or_true (is_id s.supersedes_id m.id && true) (is_superseded none t m) h) [
      | inl here ↦ (
        s,
        inl refl,
        is_id-true s.supersedes_id m.id (and_true (is_id s.supersedes_id m.id) true here).0,
      )
      | inr later ↦ let (x, i, e) = superseded-In t m later in (x, inr i, e)
    ]

In-superseded :
    (t : List Measurement) (s m : Measurement)
    → In s t
    → s.supersedes_id ≡ some m.id
    → is_superseded none t m ≡ true
unfolding is_superseded
In-superseded [] s m i h = absurd i
In-superseded (x ∷ t) s m (inl e) h = rw (← e, h, test_refl m.id) refl
In-superseded (x ∷ t) s m (inr i) h =
    or_right (is_id x.supersedes_id m.id && true) (In-superseded t s m i h)

module _ {t : List Measurement} (sound : IsSound t) (n : Measurement)
    (fresh : (s : Measurement) → In s t → s.id ≢ n.id) (added : Added t n) where
  not_fresh : (s : Measurement) (k : ℕ) → In s t → s.id ≡ k → n.id ≡ k → ⊥
  not_fresh s k i e f = fresh s i (e ∙ sym f)

  own_link : Added t n → is_id n.supersedes_id n.id ≡ false
  own_link (opens none_given empty) = no_id _ none_given
  own_link (corrects target link eff lock) = elim (Bool-cases (is_id n.supersedes_id n.id)) [
    | inr other ↦ other
    | inl own ↦
        absurd
          (fresh target eff.member (some-cancel (sym link ∙ is_id-true n.supersedes_id n.id own)))
  ]

  -- The new row is effective.
  new-latest : is_superseded none (n ∷ t) n ≡ false
  new-latest = cons-superseded n n t (own_link added) (elim (Bool-cases (is_superseded none t n)) [
    | inr latest ↦ latest
    | inl yes_it ↦
        let (s, i, e) = superseded-In t n yes_it in
        let (y, j, same, of_series, lock) = sound.linked s n.id i e in absurd (fresh y j same)
  ])

  pub new-IsEffective : (series : Series) → n.series ≡ series → IsEffective series (n ∷ t) n
  new-IsEffective series e = record { member = inl refl; of_series = e; latest = new-latest }

  -- An effective row of the new table is new, or was effective and is not superseded by the new
  -- one.
  origin :
      (series : Series) (x : Measurement)
      → IsEffective series (n ∷ t) x
      → (x ≡ n) ⊎ (IsEffective series t x × (is_id n.supersedes_id x.id ≡ false))
  origin series x e = elim e.member [
    | inl new ↦ inl new
    | inr old ↦
        let (a, b) = superseded-cons n x t e.latest in
        inr (record { member = old; of_series = e.of_series; latest = b }, a)
  ]

  keeps_IsEffective :
      Added t n
      → (series : Series) (e : Measurement) → IsEffective series t e
      → (f : Measurement) × IsEffective series (n ∷ t) f
  keeps_IsEffective (opens none_given empty) series e eff = (
    e,
    record {
      member = inr eff.member;
      of_series = eff.of_series;
      latest = cons-superseded n e t (no_id _ none_given) eff.latest;
    },
  )
  keeps_IsEffective (corrects target link found lock) series e eff =
      elim (Bool-cases (is_id n.supersedes_id e.id)) [
        | inr other ↦ (
          e,
          record {
            member = inr eff.member;
            of_series = eff.of_series;
            latest = cons-superseded n e t other eff.latest;
          },
        )
        | inl own ↦
            let same =
              sound.ids target e found.member eff.member
                (some-cancel (sym link ∙ is_id-true n.supersedes_id e.id own)) in
            (
              n,
              new-IsEffective series
                  (sym found.of_series ∙ ap (λ (m : Measurement). m.series) same ∙ eff.of_series),
            )
      ]

  -- No other row of the series of the new row is effective.
  new_alone :
      Added t n
      → (y : Measurement) → IsEffective n.series t y
      → ¬ (is_id n.supersedes_id y.id ≡ false)
  new_alone (opens none_given empty) y e h = empty y e
  new_alone (corrects target link found lock) y e h =
      let same = sound.one_effective n.series target y found e in
      differs (own_id (link ∙ ap (λ (m : Measurement). some m.id) same)) h

  new_against :
      (series : Series) (x y : Measurement)
      → IsEffective series (n ∷ t) x
      → x ≡ n
      → IsEffective series t y
      → ¬ (is_id n.supersedes_id y.id ≡ false)
  new_against series x y ex new ey h =
      let here = sym (ap (λ (m : Measurement). m.series) new) ∙ ex.of_series in
      new_alone added y (subst (λ k. IsEffective k t y) (sym here) ey) h

  one_kept :
      (series : Series) (x y : Measurement)
      → IsEffective series (n ∷ t) x
      → IsEffective series (n ∷ t) y
      → x ≡ y
  one_kept series x y ex ey = elim (origin series x ex) [
    | inl a ↦ elim (origin series y ey) [
      | inl b ↦ a ∙ sym b
      | inr (b, free) ↦ absurd (new_against series x y ex a b free)
    ]
    | inr (a, free) ↦ elim (origin series y ey) [
      | inl b ↦ absurd (new_against series y x ey b a free)
      | inr (b, free') ↦ sound.one_effective series x y a b
    ]
  ]

  -- The row that a row supersedes, and the feed lock between them.
  abbrev Follows : Measurement → ℕ → Type 0
  Follows x k =
      (y : Measurement) × In y (n ∷ t)
      × (y.id ≡ k)
      × (y.series ≡ x.series)
      × ((y.locked ≡ true) → (x.source ≡ feed))

  new_linked : Added t n → (k : ℕ) → n.supersedes_id ≡ some k → Follows n k
  new_linked (opens none_given empty) k h = cc
  new_linked (corrects target link found lock) k h =
      (target, inr found.member, some-cancel (sym link ∙ h), found.of_series, lock)

  linked_kept : (x : Measurement) (k : ℕ) → In x (n ∷ t) → x.supersedes_id ≡ some k → Follows x k
  linked_kept x k (inl e) h =
      subst (λ m. Follows m k) (sym e)
        (new_linked added k (sym (ap (λ (m : Measurement). m.supersedes_id) e) ∙ h))
  linked_kept x k (inr i) h = let (y, j, a, b, c) = sound.linked x k i h in (y, inr j, a, b, c)

  new_linear :
      Added t n
      → (y : Measurement) (k : ℕ) → In y t
      → n.supersedes_id ≡ some k
      → ¬ (y.supersedes_id ≡ some k)
  new_linear (opens none_given empty) y k j a b = cc
  new_linear (corrects target link found lock) y k j a b =
      differs (In-superseded t y target j (b ∙ sym a ∙ link)) found.latest

  abbrev link_of : Measurement → Option ℕ
  link_of m = m.supersedes_id

  linear_kept :
      (x y : Measurement) (k : ℕ)
      → In x (n ∷ t)
      → In y (n ∷ t)
      → x.supersedes_id ≡ some k
      → y.supersedes_id ≡ some k
      → x ≡ y
  linear_kept x y k (inl a) (inl b) h g = a ∙ sym b
  linear_kept x y k (inl a) (inr j) h g = absurd (new_linear added y k j (sym (ap link_of a) ∙ h) g)
  linear_kept x y k (inr i) (inl b) h g = absurd (new_linear added x k i (sym (ap link_of b) ∙ g) h)
  linear_kept x y k (inr i) (inr j) h g = sound.linear x y k i j h g

  some_kept : (x : Measurement) → In x (n ∷ t) → (e : Measurement) × IsEffective x.series (n ∷ t) e
  some_kept x (inl e) = (n, new-IsEffective x.series (sym (ap (λ (m : Measurement). m.series) e)))
  some_kept x (inr i) =
      let (e, eff) = sound.some_effective x i in keeps_IsEffective added x.series e eff

  pub added-IsSound : IsSound (n ∷ t)
  added-IsSound = record {
    ids = λ x y i j e. grind (arith, fresh x, fresh y, sound.ids x y);
    some_effective = some_kept;
    one_effective = one_kept;
    linked = linked_kept;
    linear = linear_kept;
  }
