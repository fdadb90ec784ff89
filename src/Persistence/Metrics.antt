-- ===== src/Persistence/Metrics.antt =====
-- services/persistence/metrics.py: the counters of the operations and their latencies. A duration is a
-- natural number of a unit. `snapshot`, which rounds them for display, is left out.
use native.Mathlib.Nat.{mul-le-mul_left}
use enterprise_ai_sales_orch.Prelude.{
  ℕ, ◌+◌, ◌*◌, ◌≤◌, ◌≡◌, Bool, ◌&&◌, Option, none, some, arith, min, max, if◌then◌else◌,
}
use enterprise_ai_sales_orch.Prelude.Text.{Text, text_eq}

pub record Bucket : Type 0 where
  pub count : ℕ
  pub total : ℕ
  pub least : ℕ
  pub most : ℕ

-- `_counter` and `_latency`, by operation and table
pub record Metrics : Type 0 where
  pub counter : Text → Text → ℕ
  pub latency : Text → Text → Option Bucket

abbrev pub no_metrics : Metrics
no_metrics = record { counter = λ op table. 0; latency = λ op table. none }

abbrev is_key : Text → Text → Text → Text → Bool
is_key op table op' table' = text_eq op op' && text_eq table table'

unfoldable pub inc : Text → Text → Metrics → Metrics
inc op table m = record m {
  counter = λ op' table'.
      if is_key op table op' table' then m.counter op' table' + 1 else m.counter op' table';
}

unfoldable pub observed : ℕ → Option Bucket → Bucket
observed ms none = record { count = 1; total = 0 + ms; least = ms; most = ms }
observed ms (some b) = record {
  count = b.count + 1;
  total = b.total + ms;
  least = min ms b.least;
  most = max ms b.most;
}

unfoldable pub observe : Text → Text → ℕ → Metrics → Metrics
unfolding observed
observe op table ms m = record m {
  latency = λ op' table'.
      if is_key op table op' table'
      then some (observed ms (m.latency op' table'))
      else m.latency op' table';
}

-- The count of a latency, and the bounds of its mean.
abbrev IsMeasured : ℕ → Option Bucket → Type 0
IsMeasured n none = n ≡ 0
IsMeasured n (some b) = (b.count ≡ n) × (b.count * b.least ≤ b.total) × (b.total ≤ b.count * b.most)

abbrev pub IsConsistent : Metrics → Type 0
IsConsistent m = (op table : Text) → IsMeasured (m.counter op table) (m.latency op table)

observed-IsMeasured :
    (ms n : ℕ) (b : Option Bucket) → IsMeasured n b → IsMeasured (n + 1) (some (observed ms b))
unfolding observed
observed-IsMeasured ms n none h = (omega arith, omega arith, omega arith)
observed-IsMeasured ms n (some b) (is, low, high) =
    let less : min ms b.least ≤ b.least = ground arith in
    let more : b.most ≤ max ms b.most = ground arith in
    let below = mul-le-mul_left b.count less in
    let above = mul-le-mul_left b.count more in
    let least : min ms b.least ≤ ms = ground arith in
    let most : ms ≤ max ms b.most = ground arith in (omega arith, omega arith, omega arith)

inc-observe-IsConsistent :
    (op table : Text) (ms : ℕ) (m : Metrics)
    → IsConsistent m
    → IsConsistent (inc op table (observe op table ms m))
unfolding inc observe
inc-observe-IsConsistent op table ms m h op' table' =
    ground
      (arith, h op' table', observed-IsMeasured ms (m.counter op' table') (m.latency op' table'))
