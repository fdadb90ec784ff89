-- ===== src/Harness/AgentHarness/Tests.antt =====
-- Runs of the harness at concrete inputs.
use enterprise_ai_sales_orch.Prelude.{ℕ, ◌+◌, ◌≢◌, none, some, false, [], ◌∷◌, arith, refl, All}
use native.Mathlib.Decide.{ℕ_discrete}
use enterprise_ai_sales_orch.Harness.Quota.{InMemoryQuota}
use enterprise_ai_sales_orch.Harness.Retry.{Reply, returned, raised}
use enterprise_ai_sales_orch.Harness.AgentHarness.{
  AgentHarness, Checkpointer, QuotaManager, stop, quota_exceeded,
}
use enterprise_ai_sales_orch.Harness.AgentHarness.Unmetered.{
  LeavesQuota, executions, executions_never_denied,
}

-- The world counts the runs of the agent; the agent returns ten more than its task.
abbrev agent : ℕ → ℕ → Reply ℕ ℕ × ℕ
agent t w = (returned (t + 10), w + 1)

abbrev bare : AgentHarness ℕ ℕ ℕ ℕ
bare = record {
  agent = agent;
  retry_strategy = none;
  observability = record {
    start_span = λ w. w;
    record_success = λ w. w;
    record_failure = λ f w. w;
  };
  checkpointer = none;
  quota_manager = none;
}

abbrev closed_gate : QuotaManager ℕ ℕ
closed_gate w = (returned false, w)

-- a store with a checkpoint of task 5, which cannot save
abbrev resuming : Checkpointer ℕ ℕ ℕ ℕ
resuming = record { load = λ w. (returned (some (some 5)), w); save = λ t a w. (raised 1, w) }

abbrev broken : Checkpointer ℕ ℕ ℕ ℕ
broken = record { load = λ w. (raised 0, w); save = λ t a w. (raised 1, w) }

abbrev gated : AgentHarness ℕ ℕ ℕ ℕ
gated = record bare { quota_manager = some closed_gate }

abbrev resumed : AgentHarness ℕ ℕ ℕ ℕ
resumed = record bare { checkpointer = some resuming }

abbrev unsaved : AgentHarness ℕ ℕ ℕ ℕ
unsaved = record bare { checkpointer = some broken }

-- The same agent beside a quota of one execution in a window of 100.
abbrev beside : AgentHarness ℕ ℕ ℕ (InMemoryQuota ℕ × ℕ)
beside = record {
  agent = λ t w. (returned (t + 10), (w.0, w.1 + 1));
  retry_strategy = none;
  observability = record {
    start_span = λ w. w;
    record_success = λ w. w;
    record_failure = λ f w. w;
  };
  checkpointer = none;
  quota_manager = none;
}

beside-LeavesQuota : LeavesQuota beside
beside-LeavesQuota = record {
  agent = λ t w. refl;
  load = λ c h w. cc;
  save = λ c h t a w. cc;
  span = λ w. refl;
  success = λ w. refl;
  failure = λ f w. refl;
}

abbrev world : InMemoryQuota ℕ × ℕ
world = (record { requests_per_hour = 1; window_seconds = 100; executions = λ _. [] }, 0)

executions_never_denied_example :
    All
      (λ r. r ≢ stop quota_exceeded)
      (executions ℕ_discrete 7 beside ((1, 4) ∷ (2, 4) ∷ (3, 4) ∷ []) world).0
executions_never_denied_example =
    executions_never_denied ℕ_discrete 7 beside ((1, 4) ∷ (2, 4) ∷ (3, 4) ∷ []) world
      beside-LeavesQuota refl (omega arith)
