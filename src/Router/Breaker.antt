-- ===== src/Router/Breaker.antt =====
-- The circuit breaker against its definition: what isHealthy answers after a history of calls of
-- RecordSuccess and RecordFailure for one server and side.
use fi_mcp_kit.Base.{
  ℕ, suc, true, false, ◌||◌, if◌then◌else◌, ◌-◌, ◌<◌, ◌≡◌, refl, String, Bool, ◌&&◌, some, List, [],
  ◌∷◌, arith, ltb, leb,
}
use fi_mcp_kit.Router.Health.{Health, Limits, is_healthy, zero_health, new_health, succeed, fail}

pub data Call (A : Type 0) : Type 0 where
  success : ℕ → A → Call A
  failure : ℕ → String → Call A

module _ {A : Type 0} (z : A) (is_zero : A → Bool) (blend : A → A → A) (l : Limits) where
  -- The entry that a history of calls leaves, the newest first: of one that New made, or of one that the
  -- first call made, for a server that New did not know.
  abbrev pub first_entry : Bool → Health A
  first_entry known = if known then new_health z else zero_health z

  unfoldable pub after : Bool → List (Call A) → Health A
  after known [] = first_entry known
  after known (success now latency ∷ past) = succeed is_zero blend now latency (after known past)
  after known (failure now message ∷ past) = fail l now message (after known past)

-- The failures since the last success, and the time of the newest call if that is a failure.
abbrev pub failures_since : {A : Type 0} → List (Call A) → ℕ
failures_since [] = 0
failures_since (success now latency ∷ past) = 0
failures_since (failure now message ∷ past) = suc (failures_since past)

abbrev pub last_failure : {A : Type 0} → List (Call A) → ℕ
last_failure [] = 0
last_failure (success now latency ∷ past) = 0
last_failure (failure now message ∷ past) = now

-- Whether a success is among the calls.
abbrev pub succeeded : {A : Type 0} → List (Call A) → Bool
succeeded [] = false
succeeded (success now latency ∷ past) = true
succeeded (failure now message ∷ past) = succeeded past

module _ {A : Type 0} (z : A) (is_zero : A → Bool) (blend : A → A → A) (l : Limits)
    (known : Bool) where
  consec_fails-after :
      (calls : List (Call A))
      → (after z is_zero blend l known calls).consec_fails ≡ failures_since calls
  unfolding after succeed fail
  consec_fails-after [] = ground arith
  consec_fails-after (success now latency ∷ past) = refl
  consec_fails-after (failure now message ∷ past) = omega (arith, consec_fails-after past)

  healthy-after :
      (calls : List (Call A))
      → 0 < l.failure_threshold
      → (after z is_zero blend l known calls).healthy
        ≡ (ltb (failures_since calls) l.failure_threshold && (known || succeeded calls))
  unfolding after succeed fail
  healthy-after [] h = ground arith
  healthy-after (success now latency ∷ past) h = ground arith
  healthy-after (failure now message ∷ past) h =
      ground (arith, healthy-after past h, consec_fails-after past)

  last_error-after :
      (calls : List (Call A))
      → 0 < failures_since calls
      → (after z is_zero blend l known calls).last_error ≡ last_failure calls
  unfolding after succeed fail
  last_error-after [] h = absurd (omega arith)
  last_error-after (success now latency ∷ past) h = absurd (omega arith)
  last_error-after (failure now message ∷ past) h = refl

  -- With a positive threshold, isHealthy answers so after any history of recorded calls of a server.
  -- While the failures since the last success are as many as the threshold or more, a server is healthy
  -- exactly if the recovery time has passed since the last failure. While they are fewer, it is healthy
  -- exactly if New made its entry or a call of it has succeeded; an entry that a failure made is
  -- unhealthy from the first failure on.
  pub is_healthy-after :
      (calls : List (Call A)) (now : ℕ)
      → 0 < l.failure_threshold
      → is_healthy l now (some (after z is_zero blend l known calls)) ≡ (
          if leb l.failure_threshold (failures_since calls)
          then leb l.recovery_time (now - last_failure calls)
          else known || succeeded calls)
  unfolding is_healthy
  is_healthy-after calls now h =
      ground (arith, consec_fails-after calls, healthy-after calls h, last_error-after calls)
