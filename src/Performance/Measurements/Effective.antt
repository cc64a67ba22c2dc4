-- ===== src/Performance/Measurements/Effective.antt =====
-- What `resolveCurrent` finds: an effective row of the series, if there is one.
use strat_align.Prelude.{
  keep-In, In-keep, not-true, Bool, true, false, none, some, List, [], ◌∷◌, ◌≡◌, ◌≢◌, refl, ◌⊎◌,
  inl, inr, arith, ◌==◌, ◌&&◌, not, keep, In, eq_of_test, test_refl, and_true,
}
use mathlib.Core.Path.{subst}
use strat_align.Performance.Measurements.{
  Series, same_series, Measurement, is_superseded, insert, order, first, limit_to, effective,
  query_effective, resolve, resolve_current,
}

pub same_series-eq : (a b : Series) → same_series a b ≡ true → a ≡ b
same_series-eq a b h =
    let (x, y) =
      and_true (a.kpi_version_id == b.kpi_version_id && a.scope_node_id == b.scope_node_id)
        (a.period == b.period) h in
    let (k, s) =
      and_true (a.kpi_version_id == b.kpi_version_id) (a.scope_node_id == b.scope_node_id) x in
    series-eq (eq_of_test a.kpi_version_id b.kpi_version_id k)
      (eq_of_test a.scope_node_id b.scope_node_id s) (eq_of_test a.period b.period y)
  where
    series-eq :
        a.kpi_version_id ≡ b.kpi_version_id
        → a.scope_node_id ≡ b.scope_node_id
        → a.period ≡ b.period
        → a ≡ b
    series-eq k s p = cc

pub same_series_self : (a : Series) → same_series a a ≡ true
same_series_self a =
    rw (test_refl a.kpi_version_id, test_refl a.scope_node_id, test_refl a.period) refl

insert-In :
    (m : Measurement) (xs : List Measurement) (x : Measurement)
    → In x (insert m xs)
    → (x ≡ m) ⊎ In x xs
unfolding insert
insert-In m [] x i = i
insert-In m (y ∷ xs) x i = ground (arith, insert-In m xs x)

order-In : (xs : List Measurement) (x : Measurement) → In x (order xs) → In x xs
unfolding order
order-In [] x i = i
order-In (m ∷ xs) x i = elim (insert-In m (order xs) x i) [
  | inl here ↦ inl here
  | inr later ↦ inr (order-In xs x later)
]

first_of-insert :
    (m : Measurement) (xs : List Measurement) → first (limit_to 1 (insert m xs)) ≢ none
unfolding insert
first_of-insert m [] h = cc
first_of-insert m (x ∷ xs) h = ground arith

first_of-order : (xs : List Measurement) → first (limit_to 1 (order xs)) ≡ none → xs ≡ []
unfolding order
first_of-order [] h = refl
first_of-order (m ∷ xs) h = absurd (first_of-insert m (order xs) h)

first-In : (xs : List Measurement) (m : Measurement) → first (limit_to 1 xs) ≡ some m → In m xs
first-In [] m h = cc
first-In (x ∷ xs) m h = inl cc

-- A row of a series that no row supersedes.
pub record IsEffective (series : Series) (t : List Measurement) (m : Measurement) : Type 0 where
  pub member : In m t
  pub of_series : m.series ≡ series
  pub latest : is_superseded none t m ≡ false

abbrev chosen : Series → List Measurement → Measurement → Bool
chosen series t m = same_series m.series series && true && not (is_superseded none t m)

chosen-IsEffective :
    (series : Series) (t : List Measurement) (m : Measurement)
    → In m t
    → chosen series t m ≡ true
    → IsEffective series t m
chosen-IsEffective series t m i h =
    let (a, b) = and_true (same_series m.series series && true) (not (is_superseded none t m)) h in
    let (c, d) = and_true (same_series m.series series) true a in
    record {
      member = i;
      of_series = same_series-eq m.series series c;
      latest = not-true (is_superseded none t m) b;
    }

IsEffective-chosen :
    (series : Series) (t : List Measurement) (m : Measurement)
    → IsEffective series t m
    → chosen series t m ≡ true
IsEffective-chosen series t m e =
    let same : same_series m.series series ≡ true =
      subst (λ k. same_series m.series k ≡ true) e.of_series (same_series_self m.series) in
    rw (same, e.latest) refl

-- The current measurement is an effective row of its series, and there is one if there is any.
pub resolve_current-some :
    (series : Series) (t : List Measurement) (m : Measurement)
    → resolve_current series t ≡ some m
    → IsEffective series t m
unfolding resolve query_effective effective
resolve_current-some series t m h =
    let kept = keep (chosen series t) t in
    let (i, c) = keep-In (chosen series t) t m (order-In kept m (first-In (order kept) m h)) in
    chosen-IsEffective series t m i c

pub resolve_current-none :
    (series : Series) (t : List Measurement) (m : Measurement)
    → resolve_current series t ≡ none
    → ¬ IsEffective series t m
unfolding resolve query_effective effective
resolve_current-none series t m h e =
    let empty = first_of-order (keep (chosen series t) t) h in
    subst (λ ms. In m ms) empty
      (In-keep (chosen series t) t m e.member (IsEffective-chosen series t m e))
