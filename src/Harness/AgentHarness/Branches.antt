-- ===== src/Harness/AgentHarness/Branches.antt =====
-- The ways in which an execution under the harness goes.
use enterprise_ai_sales_orch.Prelude.{◌≡◌, ◌≢◌, Option, some, false, arith, refl}
use enterprise_ai_sales_orch.Harness.Retry.{Reply, returned, raised, interrupted}
use enterprise_ai_sales_orch.Harness.AgentHarness.{
  AgentHarness, Checkpointer, QuotaManager, ok, stop, quota_exceeded, check_quota, load_checkpoint,
  execute_agent, save_checkpoint, attempt, execute,
}

-- The checkpoint was saved, or its saving raised an `Exception`.
abbrev pub IsCaught : {A E : Type 0} → Reply A E → Type 0
IsCaught r = r ≢ interrupted

-- What `load` answers where there is no task to resume: nothing, a checkpoint with no task, or an
-- exception.
abbrev pub HasNoTask : {T E : Type 0} → Reply (Option (Option T)) E → Type 0
HasNoTask (returned (some (some t))) = ⊥
HasNoTask (returned _) = Unit
HasNoTask (raised e) = Unit
HasNoTask interrupted = ⊥

module _ {T A E W : Type 0} (h : AgentHarness T A E W) where
  -- When the quota manager says no, the execution stops with that and nothing else has happened: no
  -- checkpoint is loaded, no span is started, and the agent does not run.
  execute_denied :
      (q : QuotaManager E W) (task : T) (w w' : W)
      → h.quota_manager ≡ some q
      → q w ≡ (returned false, w')
      → execute h task w ≡ (stop quota_exceeded, w')
  unfolding execute check_quota
  execute_denied q task w w' has denied = ground arith

  module _ (c : Checkpointer T A E W) (has : h.checkpointer ≡ some c) where
    attempt-result :
        (task : T) (w : W)
        → ((t : T) (a : A) (w' : W) → IsCaught (c.save t a w').0)
        → (attempt h task w).0 ≡ (execute_agent h.retry_strategy (h.agent task) w).0
    unfolding attempt save_checkpoint
    attempt-result task w caught =
        let (r, w') = execute_agent h.retry_strategy (h.agent task) w in
        elim r
            as (λ r.
              r ≡ (execute_agent h.retry_strategy (h.agent task) w).0 → (attempt h task w).0 ≡ r) [
                | ok a ↦ λ e. ground (arith, caught task a w')
                | stop f ↦ λ e. ground arith
              ]
          refl

    -- An execution that the quota allows, and that finds no task to resume (no checkpoint, one with no
    -- task, or an exception from `load`), ends as the agent does under the retry strategy, on the given
    -- task, from the start of the span: no failure to load or save a checkpoint changes that, if the
    -- saving raises nothing but an `Exception`.
    execute_result :
        (task : T) (w w₁ w₂ : W) (found : Reply (Option (Option T)) E)
        → check_quota h.quota_manager w ≡ (ok tt, w₁)
        → c.load w₁ ≡ (found, w₂)
        → HasNoTask found
        → ((t : T) (a : A) (w' : W) → IsCaught (c.save t a w').0)
        → (execute h task w).0
          ≡ (execute_agent h.retry_strategy (h.agent task) (h.observability.start_span w₂)).0
    unfolding execute load_checkpoint
    execute_result task w w₁ w₂ found allowed load fresh caught =
        let last = attempt-result task (h.observability.start_span w₂) caught in ground arith

    -- An execution that the quota allows, and that finds a checkpoint with a task, goes on with that
    -- task, whichever task it is given: two executions under one id are the same.
    execute_resumes :
        (task task' saved : T) (w w₁ w₂ : W)
        → check_quota h.quota_manager w ≡ (ok tt, w₁)
        → c.load w₁ ≡ (returned (some (some saved)), w₂)
        → (execute h task w ≡ execute h task' w)
          × (execute h task w ≡ attempt h saved (h.observability.start_span w₂))
    unfolding execute load_checkpoint
    execute_resumes task task' saved w w₁ w₂ allowed load = ground arith

  -- What a successful execution has done: the agent, under the retry strategy, returned the value on
  -- some task; then that task and value were saved, where there is a checkpointer; and last the success
  -- was recorded.
  pub record Succeeded (a : A) (end : W) : Type 0 where
    pub task : T
    pub began : W
    pub agent_done : W
    pub by_agent : execute_agent h.retry_strategy (h.agent task) began ≡ (ok a, agent_done)
    pub end_eq :
        end ≡ h.observability.record_success (save_checkpoint h.checkpointer task a agent_done).1
