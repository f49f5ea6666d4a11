-- ===== src/Prelude/Answer.antt =====
-- The two results (T, error) of a Go function, the error by its text.
use Prim.Native.String.{String}

pub data Answer {ℓ} (A : Type ℓ) : Type ℓ where
  got : A → Answer A
  failed : String → Answer A
