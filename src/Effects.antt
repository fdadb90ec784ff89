-- ===== src/Effects.antt =====
-- Actions on a world that may raise, as the parts that call services share them, and their lemmas.
use enterprise_ai_sales_orch.Prelude.{◌≡◌, refl, Bool, true, false, if◌then◌else◌}
pub use enterprise_ai_sales_orch.Harness.Retry.{Reply, returned, raised, interrupted}
pub use enterprise_ai_sales_orch.Sequencer.{Action, ◌>>=◌, pure}
unfoldable pub use enterprise_ai_sales_orch.Dlq.{caught, or_raise}
pub use enterprise_ai_sales_orch.Sequencer.Deliveries.{bind_inv}
pub use enterprise_ai_sales_orch.Dlq.Actions.{
  bind_cases, bind_returned, bind_at, bind_raised, caught_at, or_raise_inv,
}

module _ {W A : Type 0} {b : Bool} (m n : Action W A) (w : W) where
  pub chosen : b ≡ true → (if b then m else n) w ≡ m w
  chosen h = rw h refl

  pub other_chosen : b ≡ false → (if b then m else n) w ≡ n w
  other_chosen h = rw h refl
