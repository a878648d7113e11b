-- ===== src/Effects.antt =====
-- What calls that may fail come to: promises, and answers of other processes.
use monica_companion.Base.{ℕ, String}

-- What a `fetch` comes to: a rejected promise, an answer that is not ok, one whose body is no JSON,
-- or a body.
pub data Fetched {ℓ} (A : Type ℓ) : Type ℓ where
  rejected : (message : String) → Fetched A
  not_ok : (status : ℕ) (body : String) → Fetched A
  garbled : (message : String) → Fetched A
  answered : A → Fetched A

-- A promise that is fulfilled, or rejected with an error's message.
pub data Outcome {ℓ} (A : Type ℓ) : Type ℓ where
  ok : A → Outcome A
  throws : String → Outcome A
