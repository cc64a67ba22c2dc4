-- ===== src/Rules/Aggregation/Worst.antt =====
-- The worst child wins.
use strat_align.Prelude.{true, false, List, [], ◌∷◌, ◌≡◌, refl, sym, ap, ◌∙◌, leb, if◌then◌else◌}
use strat_align.Rules.Aggregation.{
  RagStatus, on_track, watch, off_track, rank, Numbers, RagChild, worst_child_wins, rag_score,
  larger, max_score, status_of_worst, evaluate_rag_aggregation,
}

-- The worse of two statuses, and the worst of the children's, on track if there are none.
abbrev pub worse : RagStatus → RagStatus → RagStatus
worse a b = if leb (rank b) (rank a) then a else b

module _ (numbers : Numbers) where
  abbrev pub worst : List (RagChild numbers) → RagStatus
  worst [] = on_track
  worst (c ∷ cs) = worse c.status (worst cs)

  -- The three numbers 0, 0.5 and 1 compare as they do, and the maximum of no numbers is below them.
  pub record HasScores : Type 0 where
    pub zero_zero : numbers.at_least numbers.zero_number numbers.zero_number ≡ true
    pub zero_half : numbers.at_least numbers.zero_number numbers.half ≡ false
    pub zero_one : numbers.at_least numbers.zero_number numbers.one_number ≡ false
    pub half_zero : numbers.at_least numbers.half numbers.zero_number ≡ true
    pub half_half : numbers.at_least numbers.half numbers.half ≡ true
    pub half_one : numbers.at_least numbers.half numbers.one_number ≡ false
    pub one_zero : numbers.at_least numbers.one_number numbers.zero_number ≡ true
    pub one_half : numbers.at_least numbers.one_number numbers.half ≡ true
    pub one_one : numbers.at_least numbers.one_number numbers.one_number ≡ true
    pub zero_lowest : numbers.at_least numbers.zero_number numbers.lowest ≡ true
    pub half_lowest : numbers.at_least numbers.half numbers.lowest ≡ true
    pub one_lowest : numbers.at_least numbers.one_number numbers.lowest ≡ true
    pub one_is_one : numbers.equal numbers.one_number numbers.one_number ≡ true
    pub half_not_one : numbers.equal numbers.half numbers.one_number ≡ false
    pub zero_not_one : numbers.equal numbers.zero_number numbers.one_number ≡ false
    pub half_is_half : numbers.equal numbers.half numbers.half ≡ true
    pub zero_not_half : numbers.equal numbers.zero_number numbers.half ≡ false

  -- The score of the worst status.
  abbrev pub score_of_worst : RagStatus → numbers.N
  score_of_worst on_track = numbers.zero_number
  score_of_worst watch = numbers.half
  score_of_worst off_track = numbers.one_number

  module _ (scores : HasScores) where
    score_alone : (a : RagStatus) → rag_score numbers a ≡ score_of_worst a
    score_alone on_track = refl
    score_alone watch = refl
    score_alone off_track = refl

    larger-worse :
        (a b : RagStatus)
        → larger numbers (rag_score numbers a) (rag_score numbers b) ≡ rag_score numbers (worse a b)
    larger-worse on_track on_track = rw scores.zero_zero refl
    larger-worse on_track watch = rw scores.zero_half refl
    larger-worse on_track off_track = rw scores.zero_one refl
    larger-worse watch on_track = rw scores.half_zero refl
    larger-worse watch watch = rw scores.half_half refl
    larger-worse watch off_track = rw scores.half_one refl
    larger-worse off_track on_track = rw scores.one_zero refl
    larger-worse off_track watch = rw scores.one_half refl
    larger-worse off_track off_track = rw scores.one_one refl

    above_lowest : (a : RagStatus) → numbers.at_least (rag_score numbers a) numbers.lowest ≡ true
    above_lowest on_track = scores.zero_lowest
    above_lowest watch = scores.half_lowest
    above_lowest off_track = scores.one_lowest

    worse_alone : (a : RagStatus) → worse a on_track ≡ a
    worse_alone on_track = refl
    worse_alone watch = refl
    worse_alone off_track = refl

    max_score-worst :
        (c : RagChild numbers) (cs : List (RagChild numbers))
        → max_score numbers (c ∷ cs) ≡ rag_score numbers (worst (c ∷ cs))
    unfolding max_score
    max_score-worst c [] =
        rw (above_lowest c.status) (ap (rag_score numbers) (sym (worse_alone c.status)))
    max_score-worst c (d ∷ cs) =
        ap (larger numbers (rag_score numbers c.status)) (max_score-worst d cs)
        ∙ larger-worse c.status (worst (d ∷ cs))

    status_of_worst_lem : (a : RagStatus) → status_of_worst numbers (rag_score numbers a) ≡ a
    status_of_worst_lem on_track = rw (scores.zero_not_one, scores.zero_not_half) refl
    status_of_worst_lem watch = rw (scores.half_not_one, scores.half_is_half) refl
    status_of_worst_lem off_track = rw scores.one_is_one refl

    -- Under the method worst child wins, one child or more get the worst of their statuses, with
    -- the score 0 if it is on track, 0.5 if it is watch and 1 if it is off track; the comparisons
    -- of these three numbers are taken to give what they give of numbers.
    pub worst_wins :
        (c : RagChild numbers) (cs : List (RagChild numbers))
        → evaluate_rag_aggregation numbers worst_child_wins (c ∷ cs)
          ≡ record { status = worst (c ∷ cs); score = score_of_worst (worst (c ∷ cs)) }
    unfolding evaluate_rag_aggregation
    worst_wins c cs =
        let top = max_score-worst c cs in
        let w = worst (c ∷ cs) in
        ap (λ s. record { status = status_of_worst numbers s; score = s }) top
        ∙ ap (λ s. record { status = s; score = rag_score numbers w }) (status_of_worst_lem w)
        ∙ ap (λ s. record { status = w; score = s }) (score_alone w)
