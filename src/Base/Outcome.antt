-- ===== src/Base/Outcome.antt =====
-- A call that may throw: its value, or what it threw.
pub data Result {ℓ κ} (E : Type κ) (A : Type ℓ) : Type (ℓ ⊔ κ) where
  ok : A → Result E A
  err : E → Result E A
