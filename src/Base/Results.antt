-- ===== src/Base/Results.antt =====
-- Code that may throw: its value, or what it throws.
use context_gate.Base.Texts.{Text}

-- `new Error(message)`, the `SyntaxError` of `JSON.parse`, or the `TypeError` of a missing value.
pub data Thrown : Type 0 where
  error : Text → Thrown
  syntax_error : Thrown
  type_error : Thrown

pub data Result {ℓ} (A : Type ℓ) : Type ℓ where
  throw : Thrown → Result A
  ok : A → Result A
