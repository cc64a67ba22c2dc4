-- ===== src/Auth.antt =====
-- The limit on login attempts, apps/backend/src/modules/auth/login-rate-limiter.service.ts. Redis
-- is a parameter: the commands that the script calls, and what its documentation says of their
-- counters.
pub mod Window
mod Tests
use strat_align.Prelude.{
  ℕ, suc, ◌+◌, ◌-◌, Bool, true, false, Option, none, some, List, [], ◌∷◌, ◌≡◌, ◌≢◌, ◌==◌, ltb, leb,
  if◌then◌else◌,
}

-- A counter and the second at which it expires, if it does.
pub record Counter : Type 0 where
  pub count : ℕ
  pub expires_at : Option ℕ

abbrev pub is_live : ℕ → Option ℕ → Bool
is_live now none = true
is_live now (some second) = ltb now second

-- The counter that a command finds at a time.
abbrev pub live : ℕ → Option Counter → Option Counter
live now none = none
live now (some c) = if is_live now c.expires_at then some c else none

abbrev pub bump : Option Counter → Counter
bump none = record { count = 1; expires_at = none }
bump (some c) = record c { count = suc c.count }

-- `TTL`, which is negative for a counter that is not there or does not expire.
abbrev pub seconds_left : ℕ → Option Counter → Option ℕ
seconds_left now none = none
seconds_left now (some c) = left c.expires_at
  where
    left : Option ℕ → Option ℕ
    left none = none
    left (some second) = some (second - now)

-- The commands at a time, and the counter that each leaves at a key.
pub record Redis : Type 1 where
  pub State : Type 0
  pub entry : State → ℕ → Option Counter
  pub incr : ℕ → ℕ → State → ℕ × State
  pub expire : ℕ → ℕ → ℕ → State → State
  pub ttl : ℕ → ℕ → State → Option ℕ
  pub del : ℕ → State → State
  pub incr_count : (now k : ℕ) (s : State) → (incr now k s).0 ≡ (bump (live now (entry s k))).count
  pub incr_entry :
      (now k : ℕ) (s : State) → entry (incr now k s).1 k ≡ some (bump (live now (entry s k)))
  pub incr_other : (now k l : ℕ) (s : State) → l ≢ k → entry (incr now k s).1 l ≡ entry s l
  pub expire_entry :
      (now k seconds : ℕ) (s : State) (c : Counter)
      → entry s k ≡ some c
      → entry (expire now k seconds s) k ≡ some (record c { expires_at = some (now + seconds) })
  pub expire_other :
      (now k l seconds : ℕ) (s : State) → l ≢ k → entry (expire now k seconds s) l ≡ entry s l
  pub ttl_entry : (now k : ℕ) (s : State) → ttl now k s ≡ seconds_left now (live now (entry s k))
  pub del_entry : (k : ℕ) (s : State) → entry (del k s) k ≡ none
  pub del_other : (k l : ℕ) (s : State) → l ≢ k → entry (del k s) l ≡ entry s l

pub record LoginRateLimitResult : Type 0 where
  pub allowed : Bool
  pub remaining_attempts : ℕ
  pub retry_after_seconds : ℕ

abbrev pub or_zero : Option ℕ → ℕ
or_zero none = 0
or_zero (some n) = n

module _ (redis : Redis) (maximum_attempts window_seconds : ℕ) where
  -- `consumeScript`, which runs alone.
  unfoldable pub after_incr : ℕ → ℕ → ℕ × redis.State → redis.State
  after_incr now key (count, s) = if count == 1 then redis.expire now key window_seconds s else s

  unfoldable pub consume_script : ℕ → ℕ → redis.State → (ℕ × Option ℕ) × redis.State
  consume_script now key s =
      let counted = redis.incr now key s in
      let s' = after_incr now key counted in ((counted.0, redis.ttl now key s'), s')

  -- `consume`, with the key that `createKey` makes.
  unfoldable pub consume : ℕ → ℕ → redis.State → LoginRateLimitResult × redis.State
  consume now key s =
      let ((count, ttl), s') = consume_script now key s in
      (
        record {
          allowed = leb count maximum_attempts;
          remaining_attempts = maximum_attempts - count;
          retry_after_seconds = or_zero ttl;
        },
        s',
      )

  unfoldable pub reset : ℕ → redis.State → redis.State
  reset key s = redis.del key s
