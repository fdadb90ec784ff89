-- ===== src/Harness/AgentHarness.antt =====
-- core/harness/agent_harness.py: `AgentHarness.execute`. The agent and the components act on one world
-- `W`. Each may raise; the metrics and the tracing span do not. `none` is a component that is absent.
-- The end of the span, which only logs, is read as part of `record_success` and `record_failure`; after an
-- interruption it is left out.
pub mod Outcome
pub mod Branches
pub mod Unmetered
mod Tests
pub use Outcome.*
use enterprise_ai_sales_orch.Prelude.{Option, none, some, Bool, true, false}
use enterprise_ai_sales_orch.Harness.Retry.{
  Reply, returned, raised, interrupted, Ending, result, exhausted, cancelled, no_round,
  ExponentialBackoffRetry, LinearBackoffRetry, JitteredBackoffRetry, Uniform, exponential_retry,
  linear_retry, jittered_retry,
}

pub data RetryStrategy : Type 0 where
  exponential : ExponentialBackoffRetry → RetryStrategy
  linear : LinearBackoffRetry → RetryStrategy
  jittered : Uniform → JitteredBackoffRetry → RetryStrategy

-- `IQuotaManager.can_execute`
abbrev pub QuotaManager : Type 0 → Type 0 → Type 0
QuotaManager E W = W → Reply Bool E × W

-- What `load` finds under the execution's id: no checkpoint, or one with its `task_data`, if it has
-- that key. `save` stores the task and the result, with the status "completed".
pub record Checkpointer (T A E W : Type 0) : Type 0 where
  pub load : W → Reply (Option (Option T)) E × W
  pub save : T → A → W → Reply (Unit {0}) E × W

-- The metrics and the tracing: the start of the span, and what is recorded of a success and a failure.
pub record Observability (E W : Type 0) : Type 0 where
  pub start_span : W → W
  pub record_success : W → W
  pub record_failure : Failure E → W → W

pub record AgentHarness (T A E W : Type 0) : Type 0 where
  pub agent : T → W → Reply A E × W
  pub retry_strategy : Option RetryStrategy
  pub observability : Observability E W
  pub checkpointer : Option (Checkpointer T A E W)
  pub quota_manager : Option (QuotaManager E W)

check_answer : {E : Type 0} → Reply Bool E → Result (Unit {0}) E
check_answer (returned true) = ok tt
check_answer (returned false) = stop quota_exceeded
check_answer (raised e) = stop (error e)
check_answer interrupted = stop interruption

-- step 2
unfoldable pub check_quota : {E W : Type 0} → Option (QuotaManager E W) → Action W E (Unit {0})
unfolding check_answer
check_quota none w = (ok tt, w)
check_quota (some can_execute) w = let (r, w') = can_execute w in (check_answer r, w')

loaded_task : {T E : Type 0} → T → Reply (Option (Option T)) E → Result T E
loaded_task task (returned (some (some saved))) = ok saved
loaded_task task (returned _) = ok task
loaded_task task (raised _) = ok task
loaded_task task interrupted = stop interruption

-- step 3: the task to execute
unfoldable pub load_checkpoint :
    {T A E W : Type 0} → Option (Checkpointer T A E W) → T → Action W E T
unfolding loaded_task
load_checkpoint none task w = (ok task, w)
load_checkpoint (some c) task w = let (r, w') = c.load w in (loaded_task task r, w')

unfoldable pub ended : {A E : Type 0} → Ending A E → Result A E
ended (result a) = ok a
ended (exhausted e) = stop (retries_exhausted e)
ended cancelled = stop interruption
ended (no_round none) = stop retry_logic_error
ended (no_round (some e)) = stop (error e)

replied : {A E : Type 0} → Reply A E → Result A E
replied (returned a) = ok a
replied (raised e) = stop (error e)
replied interrupted = stop interruption

-- step 5
unfoldable pub execute_agent :
    {A E W : Type 0} → Option RetryStrategy → (W → Reply A E × W) → Action W E A
unfolding replied ended exponential_retry linear_retry jittered_retry
execute_agent none func w = let (r, w') = func w in (replied r, w')
execute_agent (some (exponential s)) func w =
    let run = exponential_retry s func w in (ended run.ending, run.world)
execute_agent (some (linear s)) func w =
    let run = linear_retry s func w in (ended run.ending, run.world)
execute_agent (some (jittered uniform s)) func w =
    let run = jittered_retry uniform s func w in (ended run.ending, run.world)

saved : {E : Type 0} → Reply (Unit {0}) E → Result (Unit {0}) E
saved (returned _) = ok tt
saved (raised _) = ok tt
saved interrupted = stop interruption

-- step 6
unfoldable pub save_checkpoint :
    {T A E W : Type 0} → Option (Checkpointer T A E W) → T → A → Action W E (Unit {0})
unfolding saved
save_checkpoint none task a w = (ok tt, w)
save_checkpoint (some c) task a w = let (r, w') = c.save task a w in (saved r, w')

-- the inner `except Exception`
on_exception : {E W : Type 0} → Observability E W → Failure E → W → W
on_exception o interruption w = w
on_exception o f w = o.record_failure f w

-- the inner `try`, in the span
unfoldable pub attempt : {T A E W : Type 0} → AgentHarness T A E W → T → Action W E A
unfolding on_exception
attempt h task w =
    let (r, w') = execute_agent h.retry_strategy (h.agent task) w in
    elim r [
      | ok a ↦
          let (s, w'') = save_checkpoint h.checkpointer task a w' in
          elim s [
            | ok _ ↦ (ok a, h.observability.record_success w'')
            | stop f ↦ (stop f, on_exception h.observability f w'')
          ]
      | stop f ↦ (stop f, on_exception h.observability f w')
    ]

unfoldable pub execute : {T A E W : Type 0} → AgentHarness T A E W → T → Action W E A
execute h task = do
  check_quota h.quota_manager
  task' ← load_checkpoint h.checkpointer task
  modify h.observability.start_span
  attempt h task'
