-- ===== src/Rules/Threshold.antt =====
-- A value takes the first band that it matches.
use strat_align.Prelude.{
  ℕ, suc, ◌+◌, ◌<◌, ◌≤◌, ◌≢◌, ◌==◌, eq_of_test, ne_of_test, Bool, true, false, none, some, List, [],
  ◌∷◌, ◌≡◌, refl, ap, ◌∙◌, ◌⊎◌, inl, inr, arith, In, Bool-cases,
}
use strat_align.Rules.{
  ComparisonOperator, gt, gte, lt, lte, eq, neq, ThresholdBand, ThresholdStatusResult,
  compare_numbers, match_from, evaluate_threshold_status,
}

-- A number compared with another, by the operator.
abbrev pub Compares : ℕ → ComparisonOperator → ℕ → Type 0
Compares actual gt expected = expected < actual
Compares actual gte expected = expected ≤ actual
Compares actual lt expected = actual < expected
Compares actual lte expected = actual ≤ expected
Compares actual eq expected = actual ≡ expected
Compares actual neq expected = actual ≢ expected

abbrev pub Matches : ℕ → ThresholdBand → Type 0
Matches value b = Compares value b.comparator b.value

abbrev matches : ℕ → ThresholdBand → Bool
matches value b = compare_numbers value b.comparator b.value

compare_numbers-Compares :
    (actual : ℕ) (o : ComparisonOperator) (expected : ℕ)
    → ((compare_numbers actual o expected ≡ true) × Compares actual o expected)
      ⊎ ((compare_numbers actual o expected ≡ false) × (¬ Compares actual o expected))
compare_numbers-Compares a gt b = ground arith
compare_numbers-Compares a gte b = ground arith
compare_numbers-Compares a lt b = ground arith
compare_numbers-Compares a lte b = ground arith
compare_numbers-Compares a eq b = elim (Bool-cases (a == b)) [
  | inl same ↦ inl (same, eq_of_test a b same)
  | inr other ↦ inr (other, ne_of_test a b other)
]
compare_numbers-Compares a neq b = elim (Bool-cases (a == b)) [
  | inl same ↦ inr (rw same refl, λ d. d (eq_of_test a b same))
  | inr other ↦ inl (rw other refl, ne_of_test a b other)
]

-- The band stands in the list, with the given number of bands before it, and none of those matches.
pub data IsFirstMatch (value : ℕ) : List ThresholdBand → ℕ → ThresholdBand → Type 0 where
  here :
      {b : ThresholdBand} {bs : List ThresholdBand}
      → Matches value b
      → IsFirstMatch value (b ∷ bs) 0 b
  later :
      {x b : ThresholdBand} {bs : List ThresholdBand} {n : ℕ}
      → (¬ Matches value x)
      → IsFirstMatch value bs n b
      → IsFirstMatch value (x ∷ bs) (suc n) b

abbrev result_at : ℕ → ThresholdBand → ThresholdStatusResult
result_at index b = record { label = b.label; color = b.color; matched_band_index = index }

match_from-cases :
    (index : ℕ) (bands : List ThresholdBand) (value : ℕ)
    → ((match_from index bands value ≡ none)
        × ((b : ThresholdBand) → In b bands → ¬ Matches value b))
      ⊎ ((n : ℕ) × (b : ThresholdBand) × IsFirstMatch value bands n b
          × (match_from index bands value ≡ some (result_at (index + n) b)))
unfolding match_from
match_from-cases index [] value = inl (refl, λ b i. absurd i)
match_from-cases index (x ∷ bs) value =
    let rest = match_from-cases (suc index) bs value in
    elim (compare_numbers-Compares value x.comparator x.value) [
      | inl (fits, holds) ↦
          inr
            (0, x, here holds, rw (fits, match_from) (ap (λ n. some (result_at n x)) (omega arith)))
      | inr (misses, fails_it) ↦ elim rest [
        | inl (fails, all_miss) ↦ inl (
          rw (misses, match_from) fails,
          λ b i. elim i [ inl same ↦ rw same fails_it | inr in_bs ↦ all_miss b in_bs ],
        )
        | inr (n, b, first, gives) ↦ inr (
          suc n,
          b,
          later fails_it first,
          rw (misses, match_from) (gives ∙ ap (λ n. some (result_at n b)) (omega arith)),
        )
      ]
    ]

-- `evaluateThresholdStatus` throws exactly for values that compare with the value of no band as its
-- operator says; else it gives the label and the color of the first band whose operator holds of
-- the two values, and its index.
pub evaluate_threshold_status_first :
    (bands : List ThresholdBand) (value : ℕ)
    → ((evaluate_threshold_status bands value ≡ none)
        × ((b : ThresholdBand) → In b bands → ¬ Matches value b))
      ⊎ ((n : ℕ) × (b : ThresholdBand) × IsFirstMatch value bands n b
          × (evaluate_threshold_status bands value
              ≡ some (record { label = b.label; color = b.color; matched_band_index = n })))
unfolding evaluate_threshold_status
evaluate_threshold_status_first bands value = elim (match_from-cases 0 bands value) [
  | inl fails ↦ inl fails
  | inr (n, b, first, gives) ↦
      inr (n, b, first, gives ∙ ap (λ n. some (result_at n b)) (omega arith))
]
