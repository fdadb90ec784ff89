-- ===== src/Harness/Quota.antt =====
-- core/harness/quota_management/in_memory_quota.py. Times and the window are numbers of one unit;
-- `ts >= now - window` is written `now <= ts + window`. The `defaultdict` is a total function.
pub mod Window
mod Tests
use enterprise_ai_sales_orch.Prelude.{
  ℕ, ◌+◌, ◌-◌, ◌*◌, Bool, true, false, Option, none, some, List, [], ◌∷◌, ◌++◌, ltb, leb, ◌==◌,
  keep, if◌then◌else◌,
}

-- an execution: its time and its count
abbrev pub Execution : Type 0
Execution = ℕ × ℕ

pub record InMemoryQuota (K : Type 0) : Type 0 where
  pub requests_per_hour : ℕ
  pub window_seconds : ℕ
  pub executions : K → List Execution

-- `get_remaining_quota`; the percentage is a fraction
pub record Remaining : Type 0 where
  pub remaining : ℕ
  pub total : ℕ
  pub used : ℕ
  pub percentage : ℕ × ℕ

unfoldable pub init : {K : Type 0} → ℕ → ℕ → InMemoryQuota K
init limit window = record {
  requests_per_hour = limit;
  window_seconds = window;
  executions = λ _. [];
}

unfoldable pub in_time : ℕ → ℕ → Execution → Bool
in_time window now (ts, count) = leb now (ts + window)

unfoldable pub total_count : List Execution → ℕ
total_count [] = 0
total_count ((ts, count) ∷ es) = count + total_count es

module _ {K : Type 0} (same : Discrete K) where
  -- `self.executions[agent_id] = es`
  unfoldable pub store : K → List Execution → (K → List Execution) → K → List Execution
  store k es f j = elim (same k j) [ yes _ ↦ es | no _ ↦ f j ]

  unfoldable pub cleanup_old_executions : K → ℕ → InMemoryQuota K → InMemoryQuota K
  unfolding in_time
  cleanup_old_executions k now q = record q {
    executions = store k (keep (in_time q.window_seconds now) (q.executions k)) q.executions;
  }

  unfoldable pub count_recent_executions : K → InMemoryQuota K → ℕ
  unfolding total_count
  count_recent_executions k q = total_count (q.executions k)

  -- `can_execute`, at the time that it reads
  unfoldable pub can_execute : K → ℕ → InMemoryQuota K → Bool × InMemoryQuota K
  unfolding cleanup_old_executions count_recent_executions
  can_execute k now q =
      let q' = cleanup_old_executions k now q in
      (ltb (count_recent_executions k q') q.requests_per_hour, q')

  unfoldable pub record_execution : K → ℕ → InMemoryQuota K → InMemoryQuota K
  record_execution k now q = record q {
    executions = store k (q.executions k ++ (now, 1) ∷ []) q.executions;
  }

  -- `none` is the division by a limit of zero
  unfoldable pub get_remaining_quota : K → ℕ → InMemoryQuota K → Option Remaining × InMemoryQuota K
  unfolding cleanup_old_executions count_recent_executions
  get_remaining_quota k now q =
      let q' = cleanup_old_executions k now q in
      let used = count_recent_executions k q' in
      let remaining = q.requests_per_hour - used in
      (
        if q.requests_per_hour == 0
            then none
            else some (record {
              remaining = remaining;
              total = q.requests_per_hour;
              used = used;
              percentage = (remaining * 100, q.requests_per_hour);
            }),
        q',
      )

  -- The use that the class describes: check, and record what is allowed.
  unfoldable pub request : K → ℕ → InMemoryQuota K → Bool × InMemoryQuota K
  unfolding can_execute record_execution
  request k now q =
      let (allowed, q') = can_execute k now q in
      if allowed then (true, record_execution k now q') else (false, q')
