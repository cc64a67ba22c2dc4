-- ===== src/Auth/Window.antt =====
-- How many attempts of one client are allowed in a window.
use strat_align.Prelude.{
  ℕ, suc, ◌+◌, ◌-◌, ◌≤◌, ◌<◌, false, Option, none, some, List, [], ◌∷◌, ◌≡◌, ◌≢◌, refl, sym, ap,
  ◌∙◌, inl, inr, arith, ◌==◌, ltb, leb, if◌then◌else◌, Bool-cases, eq_of_test, ne_of_test,
  test_refl,
}
use mathlib.Core.Path.{subst}
use strat_align.Auth.{
  Counter, live, bump, seconds_left, or_zero, Redis, LoginRateLimitResult, after_incr,
  consume_script, consume, reset,
}

-- What the clients do: an attempt at a second, and the reset of a counter after a successful login.
pub data Action : Type 0 where
  attempts : (key at : ℕ) → Action
  resets : (key : ℕ) → Action

not_one : (m : ℕ) → (suc (suc m) == 1) ≡ false
not_one m = ground arith

module _ (redis : Redis) (maximum window : ℕ) where
  -- The results of the attempts among some actions in their order, those of one key.
  abbrev pub results : ℕ → List Action → redis.State → List LoginRateLimitResult
  results key [] s = []
  results key (attempts other at ∷ as') s =
      let r = consume redis maximum window at other s in
      let rest = results key as' r.1 in if other == key then r.0 ∷ rest else rest
  results key (resets other ∷ as') s = results key as' (reset redis maximum window other s)

  -- Results that allow while attempts are left, from a number of attempts that were made.
  abbrev pub IsLimited : ℕ → List LoginRateLimitResult → Type 0
  IsLimited made [] = Unit
  IsLimited made (r ∷ rs) =
      (r.allowed ≡ leb (suc made) maximum)
      × (r.remaining_attempts ≡ maximum - suc made)
      × (r.retry_after_seconds ≤ window)
      × IsLimited (suc made) rs

  -- The attempts are within a window, and the resets are of other counters.
  abbrev pub AllWithin : ℕ → ℕ → ℕ → List Action → Type 0
  AllWithin key from until [] = Unit
  AllWithin key from until (attempts other at ∷ as') =
      (from ≤ at) × (at < until) × AllWithin key from until as'
  AllWithin key from until (resets other ∷ as') = (key ≢ other) × AllWithin key from until as'

  abbrev of_count : ℕ → ℕ → LoginRateLimitResult
  of_count count retry = record {
    allowed = leb count maximum;
    remaining_attempts = maximum - count;
    retry_after_seconds = retry;
  }

  of_count-eq : {a b x y : ℕ} → a ≡ b → x ≡ y → of_count a x ≡ of_count b y
  of_count-eq h k = rw (h, k) refl

  abbrev counter : ℕ → Option ℕ → Counter
  counter count expires_at = record { count = count; expires_at = expires_at }

  after_first :
      (now key : ℕ) (p : ℕ × redis.State)
      → p.0 ≡ 1
      → after_incr redis maximum window now key p ≡ redis.expire now key window p.1
  unfolding after_incr
  after_first now key (count, t) h = rw h refl

  after_later :
      (now key m : ℕ) (p : ℕ × redis.State)
      → p.0 ≡ suc (suc m)
      → after_incr redis maximum window now key p ≡ p.1
  unfolding after_incr
  after_later now key m (count, t) h = rw (h, not_one m) refl

  after_other :
      (now key k : ℕ) (p : ℕ × redis.State)
      → k ≢ key
      → redis.entry (after_incr redis maximum window now key p) k ≡ redis.entry p.1 k
  unfolding after_incr
  after_other now key k (count, t) d = elim (Bool-cases (count == 1)) [
    | inl first ↦ rw first (redis.expire_other now key k window t d)
    | inr later ↦ rw later refl
  ]

  live-counter :
      (now count until : ℕ)
      → now < until
      → live now (some (counter count (some until))) ≡ some (counter count (some until))
  live-counter now count until w = ground arith

  retry_first :
      (now : ℕ)
      → or_zero (seconds_left now (live now (some (counter 1 (some (now + window)))))) ≡ window
  retry_first now = elim (Bool-cases (ltb now (now + window))) [
    | inl left ↦ rw left (omega arith)
    | inr expired ↦ rw expired (ground arith)
  ]

  other_kept :
      (now key k : ℕ) (s : redis.State)
      → k ≢ key
      → redis.entry (consume redis maximum window now key s).1 k ≡ redis.entry s k
  unfolding consume consume_script after_incr
  other_kept now key k s d =
      after_other now key k (redis.incr now key s) d ∙ redis.incr_other now key k s d

  -- The first attempt starts a window.
  first_attempt :
      (now key : ℕ) (s : redis.State)
      → live now (redis.entry s key) ≡ none
      → (redis.entry (consume redis maximum window now key s).1 key
          ≡ some (record { count = 1; expires_at = some (now + window) }))
        × ((consume redis maximum window now key s).0 ≡ record {
          allowed = leb 1 maximum;
          remaining_attempts = maximum - 1;
          retry_after_seconds = window;
        })
  unfolding consume consume_script after_incr
  first_attempt now key s h =
      let p = redis.incr now key s in
      let one_counted = redis.incr_count now key s ∙ ap (λ o. (bump o).count) h in
      let entered = redis.incr_entry now key s ∙ ap (λ o. some (bump o)) h in
      let t = after_incr redis maximum window now key p in
      let expires =
        ap (λ q. redis.entry q key) (after_first now key p one_counted)
        ∙ redis.expire_entry now key window p.1 (counter 1 none) entered in
      (
        expires,
        of_count-eq one_counted (
            ap or_zero (redis.ttl_entry now key t)
            ∙ ap (λ o. or_zero (seconds_left now (live now o))) expires
            ∙ retry_first now),
      )

  -- A later attempt in the window counts on.
  next_attempt :
      (now key made until : ℕ) (s : redis.State)
      → redis.entry s key ≡ some (record { count = suc made; expires_at = some until })
      → now < until
      → (redis.entry (consume redis maximum window now key s).1 key
          ≡ some (record { count = suc (suc made); expires_at = some until }))
        × ((consume redis maximum window now key s).0 ≡ record {
          allowed = leb (suc (suc made)) maximum;
          remaining_attempts = maximum - suc (suc made);
          retry_after_seconds = until - now;
        })
  unfolding consume consume_script after_incr
  next_attempt now key made until s h w =
      let p = redis.incr now key s in
      let found = ap (live now) h ∙ live-counter now (suc made) until w in
      let counted = redis.incr_count now key s ∙ ap (λ o. (bump o).count) found in
      let t = after_incr redis maximum window now key p in
      let entered =
        ap (λ q. redis.entry q key) (after_later now key made p counted)
        ∙ redis.incr_entry now key s
        ∙ ap (λ o. some (bump o)) found in
      (
        entered,
        of_count-eq counted (
            ap or_zero (redis.ttl_entry now key t)
            ∙ ap (λ o. or_zero (seconds_left now (live now o))) entered
            ∙ ap (λ o. or_zero (seconds_left now o)) (live-counter now (suc (suc made)) until w)),
      )

  at_most :
      {r : LoginRateLimitResult} (count retry : ℕ)
      → r ≡ of_count count retry
      → retry ≤ window
      → r.retry_after_seconds ≤ window
  at_most count retry h k = rw h k

  reset_kept :
      (other key : ℕ) (s : redis.State)
      → key ≢ other
      → redis.entry (reset redis maximum window other s) key ≡ redis.entry s key
  unfolding reset
  reset_kept other key s d = redis.del_other other key s d

  -- The actions after the first attempt of a window, of this key and of others.
  later-IsLimited :
      (key from until made : ℕ) (as' : List Action) (s : redis.State)
      → until ≤ from + window
      → redis.entry s key ≡ some (counter (suc made) (some until))
      → AllWithin key from until as'
      → IsLimited (suc made) (results key as' s)
  later-IsLimited key from until made [] s u h w = tt
  later-IsLimited key from until made (resets other ∷ as') s u h (d, w) =
      later-IsLimited key from until made as' (reset redis maximum window other s) u
        (reset_kept other key s d ∙ h) w
  later-IsLimited key from until made (attempts k at ∷ as') s u h w = elim (Bool-cases (k == key)) [
    | inl own ↦
        let same = eq_of_test k key own in
        let (entered, result) =
          next_attempt at k made until s
            (subst (λ k. redis.entry s k ≡ some (counter (suc made) (some until))) (sym same) h)
            w.1 in
        let next = consume redis maximum window at k s in
        rw (own, IsLimited)
          (
            ap (λ (r : LoginRateLimitResult). r.allowed) result,
            ap (λ (r : LoginRateLimitResult). r.remaining_attempts) result,
            at_most (suc (suc made)) (until - at) result (omega arith),
            later-IsLimited key from until (suc made) as' next.1 u
                (subst (λ k. redis.entry next.1 k ≡ some (counter (suc (suc made)) (some until)))
                  same entered)
                w.2,
          )
    | inr other ↦ rw other (
        later-IsLimited key from until made as' (consume redis maximum window at k s).1 u
          (other_kept at k key s (λ e. ne_of_test k key other (sym e)) ∙ h) w.2)
  ]

  -- From a time when a client has no counter, its attempts within the window that its first one
  -- starts, whatever other clients do in between, resets of their counters included, and as long as
  -- its own counter is not reset: the n-th is allowed exactly if n is at most the maximum, and is
  -- told the maximum less n, or 0, as left, and to wait for at most a window.
  pub window-IsLimited :
      (key : ℕ) (now : ℕ) (later : List Action) (s : redis.State)
      → live now (redis.entry s key) ≡ none
      → AllWithin key now (now + window) later
      → IsLimited 0 (results key (attempts key now ∷ later) s)
  window-IsLimited key now later s h w =
      let (entered, result) = first_attempt now key s h in
      rw (test_refl key, IsLimited)
        (
          ap (λ (r : LoginRateLimitResult). r.allowed) result,
          ap (λ (r : LoginRateLimitResult). r.remaining_attempts) result,
          at_most 1 window result (omega arith),
          later-IsLimited key now (now + window) 0 later (consume redis maximum window now key s).1
              (omega arith) entered w,
        )
