-- ===== src/Performance/Measurements/Clock.antt =====
-- Resolution at a point in time is resolution of what the table held by then.
use strat_align.Prelude.{
  ℕ, Bool, true, false, none, some, List, [], ◌∷◌, ◌≡◌, refl, sym, ap, ◌∙◌, arith, ◌&&◌, ◌||◌, not,
  any, keep, Bool-cases, inl, inr,
}
use strat_align.Performance.Measurements.{
  Measurement, ListMeasurementsInput, existed, is_id, matches, is_superseded, effective, order,
  limit_to, query_effective,
}

and_later : (a b c : Bool) → (a && (true && c)) ≡ (a && c)
and_later true b c = refl
and_later false b c = refl

keep_yes :
    (p : Measurement → Bool) (m : Measurement) (t : List Measurement)
    → p m ≡ true
    → keep p (m ∷ t) ≡ m ∷ keep p t
keep_yes p m t h = rw (h, keep) refl

keep_no :
    (p : Measurement → Bool) (m : Measurement) (t : List Measurement)
    → p m ≡ false
    → keep p (m ∷ t) ≡ keep p t
keep_no p m t h = rw (h, keep) refl

and_of : (a b c : Bool) → c ≡ (a && b) → a ≡ true → c ≡ b
and_of true b c h k = h
and_of false b c h k = cc

and_off : (a b c : Bool) → c ≡ (a && b) → a ≡ false → c ≡ false
and_off true b c h k = cc
and_off false b c h k = h

keep-keep :
    (p q r : Measurement → Bool) (t : List Measurement)
    → ((m : Measurement) → r m ≡ (q m && p m))
    → keep p (keep q t) ≡ keep r t
keep-keep p q r [] h = refl
keep-keep p q r (m ∷ t) h =
    let rest = keep-keep p q r t h in
    elim (Bool-cases (q m)) [
      | inr dropped ↦
          ap (keep p) (keep_no q m t dropped)
          ∙ rest
          ∙ sym (keep_no r m t (and_off (q m) (p m) (r m) (h m) dropped))
      | inl kept ↦
          let same = and_of (q m) (p m) (r m) (h m) kept in
          ap (keep p) (keep_yes q m t kept) ∙ elim (Bool-cases (p m)) [
            | inl yes_p ↦
                keep_yes p m (keep q t) yes_p
                ∙ ap (λ ms. m ∷ ms) rest
                ∙ sym (keep_yes r m t (same ∙ yes_p))
            | inr no_p ↦ keep_no p m (keep q t) no_p ∙ rest ∙ sym (keep_no r m t (same ∙ no_p))
          ]
    ]

and_right : (a b : Bool) → b ≡ false → (a && b) ≡ false
and_right true b h = h
and_right false b h = refl

and_unit : (a b : Bool) → b ≡ true → (a && b) ≡ a
and_unit true b h = h
and_unit false b h = refl

and_true_right : (a : Bool) → (a && true) ≡ a
and_true_right true = refl
and_true_right false = refl

any-keep :
    (p q r : Measurement → Bool) (t : List Measurement)
    → ((m : Measurement) → r m ≡ (p m && q m))
    → any p (keep q t) ≡ any r t
any-keep p q r [] h = refl
any-keep p q r (m ∷ t) h =
    let rest = any-keep p q r t h in
    elim (Bool-cases (q m)) [
      | inr dropped ↦
          ap (any p) (keep_no q m t dropped)
          ∙ rest
          ∙ ap (λ b. b || any r t) (sym (h m ∙ and_right (p m) (q m) dropped))
      | inl kept ↦
          ap (any p) (keep_yes q m t kept)
          ∙ ap (λ b. p m || b) rest
          ∙ ap (λ b. b || any r t) (sym (h m ∙ and_unit (p m) (q m) kept))
    ]

-- The rows that the table held at a time.
abbrev pub held_at : ℕ → List Measurement → List Measurement
held_at time table = keep (existed (some time)) table

moved : (a e x y : Bool) → x ≡ y → (a && e && not x) ≡ (e && (a && true && not y))
moved a e x y h = ground (arith, h)

superseded_then :
    (time : ℕ) (t : List Measurement) (m : Measurement)
    → is_superseded (some time) t m ≡ is_superseded none (held_at time t) m
unfolding is_superseded
superseded_then time t m = sym (
    any-keep (λ s. is_id s.supersedes_id m.id && true) (existed (some time))
      (λ s. is_id s.supersedes_id m.id && existed (some time) s) t
      (λ s.
        ap (λ b. b && existed (some time) s) (sym (and_true_right (is_id s.supersedes_id m.id)))))

effective_then :
    (input : ListMeasurementsInput) (time : ℕ) (t : List Measurement)
    → effective (record input { as_of = some time }) t
      ≡ effective (record input { as_of = none }) (held_at time t)
unfolding effective
effective_then input time t = sym (
    keep-keep (λ m. matches input m && true && not (is_superseded none (held_at time t) m))
      (existed (some time))
      (λ m. matches input m && existed (some time) m && not (is_superseded (some time) t m)) t
      λ m. moved (matches input m) (existed (some time) m) _ _ (superseded_then time t m))

-- A query as of a time gives what a query without a time gives of the rows that existed by then.
pub query_effective_then :
    (input : ListMeasurementsInput) (time : ℕ) (t : List Measurement)
    → query_effective (record input { as_of = some time }) t
      ≡ query_effective (record input { as_of = none }) (held_at time t)
unfolding query_effective
query_effective_then input time t =
    ap (λ ms. limit_to input.limit (order ms)) (effective_then input time t)
