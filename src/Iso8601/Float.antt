-- ===== src/Iso8601/Float.antt =====
-- The doubles of the host, which the source computes durations with: a parameter of the model.
use rbpmn.Common.{ℕ, Bool, List}

pub record Float : Type 1 where
  pub F : Type 0
  -- `str::parse::<f64>` of digits with at most one point among them
  pub of_digits : List ℕ → F
  -- the double nearest to a quotient of two numbers: a literal of the source
  pub lit : ℕ → ℕ → F
  pub add : F → F → F
  pub mul : F → F → F
  pub div : F → F → F
  -- `a < b` and `a <= b`
  pub less : F → F → Bool
  pub at_most : F → F → Bool
