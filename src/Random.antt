-- ===== src/Random.antt =====
-- The generator `oc::PRNG` of cryptoTools, which is not part of this repository: a parameter.
-- Only its types are relied on: `get<uint64_t>()` and `get<uint8_t>()` return a word and go on to
-- a next state. No theorem assumes that the words are random.
use psa_for_multiparty.Common.{ℕ}

pub record Prng : Type 1 where
  pub State : Type 0
  pub next_u64 : State → ℕ × State
  pub next_u8 : State → ℕ × State
