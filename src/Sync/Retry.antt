-- ===== src/Sync/Retry.antt =====
-- Retries: `plan_retry` of backend/app/sync_engine/resilience.py. The delay with jitter is the step
-- around which the random generator draws, and the policy's steps are a first one and the others,
-- since an empty tuple is refused.
use cross_pilot.Prelude.{
  if◌then◌else◌, ℕ, zero, suc, ◌+◌, Bool, true, false, Option, none, some, List, [], ◌∷◌,
}
use cross_pilot.Prelude.Int.{ℤ, pos, ltb_ℤ}

-- backend/app/adapters/errors.py
pub data RetryDecision : Type 0 where
  retry retry_after refresh_token fail_fast dead_letter : RetryDecision

pub data RetryAction : Type 0 where
  do_retry do_dead_letter do_fail do_refresh : RetryAction

pub record Backoff : Type 0 where
  pub head : ℕ
  pub tail : List ℕ

pub data Delay : Type 0 where
  at_once : Delay
  exactly : ℤ → Delay
  around : ℕ → Delay

pub record RetryPlan : Type 0 where
  pub action : RetryAction
  pub delay : Delay
  pub retry_attempt : ℕ
  pub refresh_attempted : Bool

abbrev pub steps_of : Backoff → List ℕ
steps_of policy = policy.head ∷ policy.tail

-- `retry_after_seconds`, where it is given and not negative
abbrev pub asked_delay : Backoff → Option ℤ → Delay
asked_delay policy none = exactly (pos policy.head)
asked_delay policy (some after) =
    if ltb_ℤ after (pos 0) then exactly (pos policy.head) else exactly after

abbrev pub refresh_plan : Bool → ℕ → RetryPlan
refresh_plan true attempt = record {
  action = do_fail;
  delay = at_once;
  retry_attempt = attempt;
  refresh_attempted = true;
}
refresh_plan false attempt = record {
  action = do_refresh;
  delay = at_once;
  retry_attempt = attempt;
  refresh_attempted = true;
}

-- `backoff_seconds[retry_attempt]`, or `none` from its length on
abbrev pub get_elem? : List ℕ → ℕ → Option ℕ
get_elem? [] n = none
get_elem? (x ∷ xs) zero = some x
get_elem? (x ∷ xs) (suc n) = get_elem? xs n

abbrev pub backoff_plan : Option ℕ → ℕ → Bool → RetryPlan
backoff_plan none attempt refreshed = record {
  action = do_dead_letter;
  delay = at_once;
  retry_attempt = attempt;
  refresh_attempted = refreshed;
}
backoff_plan (some wait) attempt refreshed = record {
  action = do_retry;
  delay = around wait;
  retry_attempt = attempt + 1;
  refresh_attempted = refreshed;
}

unfoldable pub plan_retry : RetryDecision → ℕ → Bool → Backoff → Option ℤ → RetryPlan
plan_retry dead_letter attempt refreshed policy after = backoff_plan none attempt refreshed
plan_retry fail_fast attempt refreshed policy after = record {
  action = do_fail;
  delay = at_once;
  retry_attempt = attempt;
  refresh_attempted = refreshed;
}
plan_retry retry_after attempt refreshed policy after = record {
  action = do_retry;
  delay = asked_delay policy after;
  retry_attempt = attempt;
  refresh_attempted = refreshed;
}
plan_retry refresh_token attempt refreshed policy after = refresh_plan refreshed attempt
plan_retry retry attempt refreshed policy after =
    backoff_plan (get_elem? (steps_of policy) attempt) attempt refreshed
