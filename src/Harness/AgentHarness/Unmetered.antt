-- ===== src/Harness/AgentHarness/Unmetered.antt =====
-- The in-memory quota under the harness, which checks the quota and records no execution.
use enterprise_ai_sales_orch.Harness.Quota.Window.{store_self}
use enterprise_ai_sales_orch.Prelude.{
  keep, [], ◌∷◌, List, All, All, ◌<◌, [], List, inr, inl, Option-cases, ℕ, zero, suc, ◌+◌, ◌≡◌, ◌≢◌,
  Option, none, some, arith, refl, ◌∙◌,
}
use enterprise_ai_sales_orch.Prelude.Int.{ℤ}
use enterprise_ai_sales_orch.Harness.Quota.{in_time, total_count, InMemoryQuota, can_execute}
use enterprise_ai_sales_orch.Harness.Retry.{Reply, returned, raised, interrupted, attempts}
use enterprise_ai_sales_orch.Harness.AgentHarness.{
  true, on_exception, Failure, RetryStrategy, exponential, linear, jittered, AgentHarness,
  Checkpointer, QuotaManager, Result, ok, stop, quota_exceeded, interruption, check_quota,
  load_checkpoint, execute_agent, save_checkpoint, attempt, execute,
}

module _ {K V : Type 0} where
  -- `InMemoryQuota` as the harness's quota manager, at the time that `can_execute` reads.
  abbrev pub metered : {E : Type 0} → Discrete K → K → ℕ → QuotaManager E (InMemoryQuota K × V)
  metered same k now (q, v) =
      let (allowed, q') = can_execute same k now q in (returned allowed, (q', v))

-- No component but the quota manager reaches the quota.
pub record LeavesQuota {T A E Q V : Type 0} (h : AgentHarness T A E (Q × V)) : Type 0 where
  pub agent : (t : T) (w : Q × V) → (h.agent t w).1.0 ≡ w.0
  pub load :
      (c : Checkpointer T A E (Q × V))
      → h.checkpointer ≡ some c
      → (w : Q × V) → (c.load w).1.0 ≡ w.0
  pub save :
      (c : Checkpointer T A E (Q × V))
      → h.checkpointer ≡ some c
      → (t : T) (a : A) (w : Q × V) → (c.save t a w).1.0 ≡ w.0
  pub span : (w : Q × V) → (h.observability.start_span w).0 ≡ w.0
  pub success : (w : Q × V) → (h.observability.record_success w).0 ≡ w.0
  pub failure : (f : Failure E) (w : Q × V) → (h.observability.record_failure f w).0 ≡ w.0

module _ {A E Q V : Type 0} where
  attempts-quota :
      (max_retries : ℕ) (delay : ℕ → ℤ) (func : Q × V → Reply A E × (Q × V))
      → ((w : Q × V) → (func w).1.0 ≡ w.0)
      → (rounds attempt : ℕ) (last : Option E) (w : Q × V)
      → (attempts max_retries delay func rounds attempt last w).world.0 ≡ w.0
  unfolding attempts
  attempts-quota max_retries delay func keeps zero n last w = refl
  attempts-quota max_retries delay func keeps (suc rounds) n last w =
      by_reply (func w).0 refl
        (λ e. attempts-quota max_retries delay func keeps rounds (n + 1) (some e) (func w).1)
    where
      by_reply :
          (r : Reply A E)
          → (func w).0 ≡ r
          → ((e : E)
              → (attempts max_retries delay func rounds (n + 1) (some e) (func w).1).world.0
                ≡ (func w).1.0)
          → (attempts max_retries delay func (suc rounds) n last w).world.0 ≡ w.0
      by_reply (returned a) e rest = ground (arith, keeps w)
      by_reply (raised x) e rest = ground (arith, keeps w, rest x)
      by_reply interrupted e rest = ground (arith, keeps w)

  execute_agent-quota :
      (s : Option RetryStrategy) (func : Q × V → Reply A E × (Q × V))
      → ((w : Q × V) → (func w).1.0 ≡ w.0)
      → (w : Q × V) → (execute_agent s func w).1.0 ≡ w.0
  unfolding execute_agent
  execute_agent-quota none func keeps w = keeps w
  execute_agent-quota (some (exponential s)) func keeps w = attempts-quota _ _ func keeps _ _ _ w
  execute_agent-quota (some (linear s)) func keeps w = attempts-quota _ _ func keeps _ _ _ w
  execute_agent-quota (some (jittered u s)) func keeps w = attempts-quota _ _ func keeps _ _ _ w

module _ {A E W : Type 0} where
  execute_agent-not_quota :
      (s : Option RetryStrategy) (func : W → Reply A E × W) (w : W)
      → (execute_agent s func w).0 ≢ stop quota_exceeded
  unfolding execute_agent
  execute_agent-not_quota none func w e = ground arith
  execute_agent-not_quota (some (exponential s)) func w e = ground arith
  execute_agent-not_quota (some (linear s)) func w e = ground arith
  execute_agent-not_quota (some (jittered u s)) func w e = ground arith

module _ {T A E W : Type 0} where
  load_checkpoint-not_quota :
      (c : Option (Checkpointer T A E W)) (t : T) (w : W)
      → (load_checkpoint c t w).0 ≢ stop quota_exceeded
  unfolding load_checkpoint
  load_checkpoint-not_quota c t w = ground arith

module _ {T A E Q V : Type 0} (h : AgentHarness T A E (Q × V)) (leaves : LeavesQuota h) where
  save-quota : (t : T) (a : A) (w : Q × V) → (save_checkpoint h.checkpointer t a w).1.0 ≡ w.0
  unfolding save_checkpoint
  save-quota t a w = elim (Option-cases h.checkpointer) [
    | inl absent ↦ rw (absent, save_checkpoint) refl
    | inr (c, has) ↦ rw (has, save_checkpoint) (leaves.save c has t a w)
  ]

  load-quota : (t : T) (w : Q × V) → (load_checkpoint h.checkpointer t w).1.0 ≡ w.0
  unfolding load_checkpoint
  load-quota t w = elim (Option-cases h.checkpointer) [
    | inl absent ↦ rw (absent, load_checkpoint) refl
    | inr (c, has) ↦ rw (has, load_checkpoint) (leaves.load c has w)
  ]

  on_exception-quota : (f : Failure E) (w : Q × V) → (on_exception h.observability f w).0 ≡ w.0
  unfolding on_exception
  on_exception-quota interruption w = refl
  on_exception-quota f w = leaves.failure f w

  attempt-quota : (t : T) (w : Q × V) → (attempt h t w).1.0 ≡ w.0
  unfolding attempt
  attempt-quota t w = by_reply (execute_agent h.retry_strategy (h.agent t) w).0 refl
    where
      w' : Q × V
      w' = (execute_agent h.retry_strategy (h.agent t) w).1

      by_saving :
          (a : A) (s : Result (Unit {0}) E)
          → (execute_agent h.retry_strategy (h.agent t) w).0 ≡ ok a
          → (save_checkpoint h.checkpointer t a w').0 ≡ s
          → (attempt h t w).1.0 ≡ w'.0
      by_saving a (ok _) e d =
          ground
            (arith, leaves.success (save_checkpoint h.checkpointer t a w').1, save-quota t a w')
      by_saving a (stop f) e d =
          ground (
            arith,
            on_exception-quota f (save_checkpoint h.checkpointer t a w').1,
            save-quota t a w',
          )

      by_reply :
          (r : Result A E)
          → (execute_agent h.retry_strategy (h.agent t) w).0 ≡ r
          → (attempt h t w).1.0 ≡ w.0
      by_reply (ok a) e =
          by_saving a (save_checkpoint h.checkpointer t a w').0 e refl
          ∙ execute_agent-quota h.retry_strategy (h.agent t) (leaves.agent t) w
      by_reply (stop f) e = ground (
        arith,
        on_exception-quota f w',
        execute_agent-quota h.retry_strategy (h.agent t) (leaves.agent t) w,
      )

  attempt-not_quota : (t : T) (w : Q × V) → (attempt h t w).0 ≢ stop quota_exceeded
  unfolding attempt save_checkpoint
  attempt-not_quota t w e = ground (arith, execute_agent-not_quota h.retry_strategy (h.agent t) w)

  -- With a quota manager that says yes, an execution leaves the quota as the check does, and is not
  -- stopped by the quota.
  record Passes (t : T) (w w' : Q × V) : Type 0 where
    quota : (execute h t w).1.0 ≡ w'.0
    runs : (execute h t w).0 ≢ stop quota_exceeded

  execute-Passes :
      (t : T) (w w' : Q × V) → check_quota h.quota_manager w ≡ (ok tt, w') → Passes t w w'
  unfolding execute
  execute-Passes t w w' allowed = by_loading (load_checkpoint h.checkpointer t w').0 refl
    where
      w'' : Q × V
      w'' = (load_checkpoint h.checkpointer t w').1

      by_loading : (r : Result T E) → (load_checkpoint h.checkpointer t w').0 ≡ r → Passes t w w'
      by_loading (ok u) e = record {
        quota = ground (
          arith,
          load-quota t w',
          leaves.span w'',
          attempt-quota u (h.observability.start_span w''),
        );
        runs = ground (arith, attempt-not_quota u (h.observability.start_span w''));
      }
      by_loading (stop f) e = record {
        quota = ground (arith, load-quota t w');
        runs = ground (arith, load_checkpoint-not_quota h.checkpointer t w');
      }

module _ {K : Type 0} (same : Discrete K) (k : K) where
  can_execute_fresh :
      (now : ℕ) (q : InMemoryQuota K)
      → q.executions k ≡ []
      → 0 < q.requests_per_hour
      → ((can_execute same k now q).0 ≡ true)
        × ((can_execute same k now q).1.executions k ≡ [])
        × ((can_execute same k now q).1.requests_per_hour ≡ q.requests_per_hour)
  unfolding can_execute total_count
  can_execute_fresh now q empty room =
      ground (
        arith,
        store_self same k (keep (in_time q.window_seconds now) (q.executions k)) q.executions,
      )

  module _ {T A E V : Type 0} (h : AgentHarness T A E (InMemoryQuota K × V)) where
    -- The harness with the in-memory quota, whose check reads the given time.
    abbrev pub with_quota : ℕ → AgentHarness T A E (InMemoryQuota K × V)
    with_quota now = record h { quota_manager = some (metered same k now) }

    -- Executions one after the other, each with the time of its check.
    unfoldable pub executions :
        List (ℕ × T) → InMemoryQuota K × V → List (Result A E) × (InMemoryQuota K × V)
    executions [] w = ([], w)
    executions ((now, t) ∷ later) w =
        let (r, w') = execute (with_quota now) t w in
        let (rs, w'') = executions later w' in (r ∷ rs, w'')

    with_quota-LeavesQuota : (now : ℕ) → LeavesQuota h → LeavesQuota (with_quota now)
    with_quota-LeavesQuota now l = record {
      agent = l.agent;
      load = l.load;
      save = l.save;
      span = l.span;
      success = l.success;
      failure = l.failure;
    }

    execute_fresh :
        (now : ℕ) (t : T) (w : InMemoryQuota K × V)
        → LeavesQuota h
        → w.0.executions k ≡ []
        → 0 < w.0.requests_per_hour
        → let (r, w') = execute (with_quota now) t w in
          (r ≢ stop quota_exceeded)
          × (w'.0.executions k ≡ [])
          × (w'.0.requests_per_hour ≡ w.0.requests_per_hour)
    execute_fresh now t w l empty room =
        let (yes_now, still, same_limit) = can_execute_fresh now w.0 empty room in
        let w' : InMemoryQuota K × V = ((can_execute same k now w.0).1, w.1) in
        let allowed : check_quota (with_quota now).quota_manager w ≡ (ok tt, w') =
          unfold check_quota in rw yes_now refl in
        let p = execute-Passes (with_quota now) (with_quota-LeavesQuota now l) t w w' allowed in
        (p.runs, rw p.quota still, rw p.quota same_limit)

    -- If no component but the quota manager reaches the quota, its limit is positive and it holds no
    -- execution of the agent, then none of any number of executions, whenever they come and however
    -- many fall in one window, is stopped by the quota.
    pub executions_never_denied :
        (runs : List (ℕ × T)) (w : InMemoryQuota K × V)
        → LeavesQuota h
        → w.0.executions k ≡ []
        → 0 < w.0.requests_per_hour
        → All (λ r. r ≢ stop quota_exceeded) (executions runs w).0
    unfolding executions
    executions_never_denied [] w l empty room = tt
    executions_never_denied ((now, t) ∷ later) w l empty room =
        let (runs_now, still, same_limit) = execute_fresh now t w l empty room in
        (
          runs_now,
          executions_never_denied later (execute (with_quota now) t w).1 l still
              (rw same_limit room),
        )
