-- ===== src/Auth/Tests.antt =====
-- A Redis of counters by key, and the limit on login attempts with it.
use strat_align.Prelude.{
  ℕ, ◌+◌, Bool, true, false, Option, none, some, List, [], ◌∷◌, ◌≡◌, ◌≢◌, refl, arith, ◌==◌,
  if◌then◌else◌, Bool-cases, eq_of_test, inl, inr, test_refl,
}
use strat_align.Auth.{
  Counter, live, bump, seconds_left, Redis, LoginRateLimitResult, after_incr, consume_script,
  consume, reset,
}
use strat_align.Auth.Window.{Action, attempts, resets, results, IsLimited, window-IsLimited}

limiter : Unit {0}
unfolding after_incr consume_script consume reset
limiter = tt

abbrev Store : Type 0
Store = ℕ → Option Counter

abbrev put : ℕ → Option Counter → Store → Store
put k o s l = if l == k then o else s l

put_same : (k : ℕ) (o : Option Counter) (s : Store) → put k o s k ≡ o
put_same k o s = rw (test_refl k) refl

put_other : (k l : ℕ) (o : Option Counter) (s : Store) → l ≢ k → put k o s l ≡ s l
put_other k l o s d = elim (Bool-cases (l == k)) [
  | inl same ↦ absurd (d (eq_of_test l k same))
  | inr other ↦ rw other refl
]

abbrev expiring : ℕ → Option Counter → Option Counter
expiring second none = none
expiring second (some c) = some (record c { expires_at = some second })

abbrev counters : Redis
counters = record {
  State = Store;
  entry = λ s k. s k;
  incr = λ now k s. ((bump (live now (s k))).count, put k (some (bump (live now (s k)))) s);
  expire = λ now k seconds s. put k (expiring (now + seconds) (s k)) s;
  ttl = λ now k s. seconds_left now (live now (s k));
  del = λ k s. put k none s;
  incr_count = λ now k s. refl;
  incr_entry = λ now k s. put_same k (some (bump (live now (s k)))) s;
  incr_other = λ now k l s d. put_other k l (some (bump (live now (s k)))) s d;
  expire_entry = λ now k seconds s c h. rw (test_refl k, h) refl;
  expire_other = λ now k l seconds s d. put_other k l (expiring (now + seconds) (s k)) s d;
  ttl_entry = λ now k s. refl;
  del_entry = λ k s. put_same k none s;
  del_other = λ k l s d. put_other k l none s d;
}

abbrev nothing : Store
nothing k = none

abbrev actions : List Action
actions = attempts 8 101 ∷ attempts 7 105 ∷ resets 8 ∷ attempts 7 110 ∷ []

abbrev result : Bool → ℕ → ℕ → LoginRateLimitResult
result allowed remaining retry = record {
  allowed = allowed;
  remaining_attempts = remaining;
  retry_after_seconds = retry;
}

runs :
    (results counters 2 900 7 (attempts 7 100 ∷ actions) nothing
      ≡ result true 1 900 ∷ result true 0 895 ∷ result false 0 890 ∷ [])
    × (results counters 2 900 7 (attempts 7 100 ∷ attempts 7 1000 ∷ []) nothing
        ≡ result true 1 900 ∷ result true 1 900 ∷ [])
    × (results counters 2 900 7 (attempts 7 100 ∷ resets 7 ∷ attempts 7 110 ∷ []) nothing
        ≡ result true 1 900 ∷ result true 1 900 ∷ [])
unfolding limiter
runs = (refl, refl, refl)

window-IsLimited_example :
    IsLimited counters 2 900 0 (results counters 2 900 7 (attempts 7 100 ∷ actions) nothing)
window-IsLimited_example = window-IsLimited counters 2 900 7 100 actions nothing refl (
  omega arith,
  omega arith,
  (omega arith, omega arith, (λ e. absurd (omega arith), (omega arith, omega arith, tt))),
)
