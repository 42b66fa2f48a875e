-- ===== src/CRandom.antt =====
-- The C library's generator of random numbers: `rand` and `srand` are parameters of the model. Its
-- state is hidden; `rand` gives a number and the next state, and `srand` a state for a seed.
use scarv_cpu.Base.{ℕ, ◌%◌, ◌<◌, ◌^◌, Bool, ltb}

pub record CRandom : Type 1 where
  pub State : Type 0
  pub rand : State → ℕ × State
  pub srand : ℕ → State
  pub rand_max : (s : State) → (rand s).0 < 2 ^ 31

-- `rand_chance` of the agents: true in `a` out of `b` cases.
unfoldable pub rand_chance : (lib : CRandom) → ℕ → ℕ → lib.State → Bool × lib.State
rand_chance lib a b s = let (v, s') = lib.rand s in (ltb (v % b) a, s')
