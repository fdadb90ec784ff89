-- ===== src/Dlq/Actions.antt =====
-- Actions by what they reply.
use enterprise_ai_sales_orch.Prelude.{ap, sym}
use mathlib.Core.Path.{subst}
use enterprise_ai_sales_orch.Prelude.{sym, ◌≡◌, refl, arith, Option, none, some}
use enterprise_ai_sales_orch.Prelude.Text.{Text}
use enterprise_ai_sales_orch.Harness.Retry.{Reply, returned, raised, interrupted}
use enterprise_ai_sales_orch.Sequencer.{Action, ◌>>=◌}
use enterprise_ai_sales_orch.Dlq.{caught, or_raise}
use enterprise_ai_sales_orch.Dlq.Moves.{told}

-- An action and what follows it, by what the action replies.
pub bind_cases :
    {W A B : Type 0} (P : Reply B Text × W → Type 0) (m : Action W A) (f : A → Action W B) (w : W)
    → ((a : A) → (m w).0 ≡ returned a → P (f a (m w).1))
    → ((e : Text) → (m w).0 ≡ raised e → P (raised e, (m w).1))
    → ((m w).0 ≡ interrupted → P (interrupted, (m w).1))
    → P ((m >>= f) w)
bind_cases {W} {A} {B} P m f w on_return on_raise on_interrupt = cases (m w).0 refl
  where
    Goal : Reply A Text → Type 0
    Goal r = P (elim r [
      | returned a ↦ f a (m w).1
      | raised e ↦ (raised e, (m w).1)
      | interrupted ↦ (interrupted, (m w).1)
    ])

    cases : (r : Reply A Text) → (m w).0 ≡ r → P ((m >>= f) w)
    cases (returned a) e = subst Goal (sym e) (on_return a e)
    cases (raised x) e = subst Goal (sym e) (on_raise x e)
    cases interrupted e = subst Goal (sym e) (on_interrupt e)

module _ {W : Type 0} (m : Action W (Option Text)) (w : W) where
  pub told-caught : told (caught none m w).0 ≡ told (m w).0
  unfolding caught told
  told-caught = by_reply (m w).0 refl
    where
      by_reply :
          (r : Reply (Option Text) Text) → (m w).0 ≡ r → told (caught none m w).0 ≡ told (m w).0
      by_reply (returned o) e = ground (arith, e)
      by_reply (raised x) e = ground (arith, e)
      by_reply interrupted e = ground (arith, e)

  pub caught_world : (caught none m w).1 ≡ (m w).1
  unfolding caught
  caught_world = by_reply (m w).0 refl
    where
      by_reply : (r : Reply (Option Text) Text) → (m w).0 ≡ r → (caught none m w).1 ≡ (m w).1
      by_reply (returned o) e = ground (arith, e)
      by_reply (raised x) e = ground (arith, e)
      by_reply interrupted e = ground (arith, e)

pub bind_returned :
    {W A B : Type 0} (m : Action W A) (f : A → Action W B) (w : W) (a : A)
    → (m w).0 ≡ returned a
    → (m >>= f) w ≡ f a (m w).1
bind_returned {W} {A} {B} m f w a h =
    bind_cases (λ r. r ≡ f a (m w).1) m f w (λ b e. let same : b ≡ a = cc in rw same)
      (λ x e. absurd cc) (λ e. absurd cc)

-- A result that is not the default is what the action returned.
pub caught_inv :
    {W A : Type 0} (m : Action W (Option A)) (w : W) (a : A)
    → (caught none m w).0 ≡ returned (some a)
    → (m w).0 ≡ returned (some a)
unfolding caught
caught_inv {W} {A} m w a h = by_reply (m w).0 refl h
  where
    by_reply :
        (r : Reply (Option A) Text)
        → (m w).0 ≡ r
        → (caught none m w).0 ≡ returned (some a)
        → (m w).0 ≡ returned (some a)
    by_reply (returned o) e h = ground (arith, e, h)
    by_reply (raised x) e h = ground (arith, e, h)
    by_reply interrupted e h = ground (arith, e, h)

pub or_raise_inv :
    {W A : Type 0} (o : Option A) (x : Text) (w : W) (a : A)
    → (or_raise o x w).0 ≡ returned a
    → (o ≡ some a) × ((or_raise o x w).1 ≡ w)
or_raise_inv none x w a h = ground arith
or_raise_inv (some b) x w a h = ground arith

module _ {W A : Type 0} (m : Action W A) (w : W) where
  pub bind_at :
      {B : Type 0} (f : A → Action W B) (a : A) (v : W)
      → m w ≡ (returned a, v)
      → (m >>= f) w ≡ f a v
  bind_at {B} f a v h = ap after h
    where
      after : Reply A Text × W → Reply B Text × W
      after r = elim r.0 [
        | returned b ↦ f b r.1
        | raised e ↦ (raised e, r.1)
        | interrupted ↦ (interrupted, r.1)
      ]

  pub bind_raised :
      {B : Type 0} (f : A → Action W B) (e : Text) (v : W)
      → m w ≡ (raised e, v)
      → (m >>= f) w ≡ (raised e, v)
  bind_raised {B} f e v h = ap after h
    where
      after : Reply A Text × W → Reply B Text × W
      after r = elim r.0 [
        | returned b ↦ f b r.1
        | raised e ↦ (raised e, r.1)
        | interrupted ↦ (interrupted, r.1)
      ]

  pub caught_at :
      (default a : A) (v : W) → m w ≡ (returned a, v) → caught default m w ≡ (returned a, v)
  unfolding caught
  caught_at default a v h = ap after h
    where
      after : Reply A Text × W → Reply A Text × W
      after r = elim r.0 [
        | returned b ↦ (returned b, r.1)
        | raised e ↦ (returned default, r.1)
        | interrupted ↦ (interrupted, r.1)
      ]
