-- ===== src/Twin/Engine/Scenario.antt =====
-- twin-protocol/src/osovm.rs: scenarios, trajectories, the engine and its arithmetic.
use sovereign_stack.Base.{
  ℕ, Bool, true, false, Option, none, some, List, [], ◌∷◌, ◌++◌, Text, text, ltb, ◌==◌, Ordering,
  if◌then◌else◌,
}
use sovereign_stack.Twin.Simulation.{SimPolicy}

pub record SimScenario : Type 0 where
  pub name : Text
  pub robot_model : Text
  pub trajectory_count : ℕ
  pub selection_objective : Text
  pub params : Option Text

pub record TrajectoryResult (F : Type 0) : Type 0 where
  pub trajectory_id : Text
  pub policy_id : Text
  pub success : Bool
  pub energy_j : F
  pub risk_score : F
  pub duration_s : F
  pub metrics : Option Text

pub record OsovmRunResult (F : Type 0) : Type 0 where
  pub engine_version : Text
  pub scenario : SimScenario
  pub trajectories : List (TrajectoryResult F)
  pub candidate_policies : List (SimPolicy F)
  pub selected_policy_id : Text
  pub run_id : Text
  pub wall_ms : ℕ

pub record OsovmEngine : Type 0 where
  pub engine_version : Text
  pub endpoint : Option Text
  pub bypass_sabbath : Bool

unfoldable pub new_engine : Text → OsovmEngine
new_engine version = record { engine_version = version; endpoint = none; bypass_sabbath = false }

unfoldable pub with_endpoint_opt : OsovmEngine → Option Text → OsovmEngine
with_endpoint_opt engine none = engine
with_endpoint_opt engine (some url) = record engine { endpoint = some url }

-- the builder of the same name
unfoldable pub bypassing_sabbath : OsovmEngine → OsovmEngine
bypassing_sabbath engine = record engine { bypass_sabbath = true }

-- What is read of a `TwinAsset`.
pub record Twin (F : Type 0) : Type 0 where
  pub twin_id : Text
  pub f1_score : F

-- The operations of `f32`: `decimal m d` is the literal m / 10 ^ d, `compare` is `partial_cmp`,
-- and `display` is the text of a number.
pub record Arithmetic (F : Type 0) : Type 0 where
  pub decimal : ℕ → ℕ → F
  pub from_u32 : ℕ → F
  pub add : F → F → F
  pub sub : F → F → F
  pub mul : F → F → F
  pub div : F → F → F
  pub max : F → F → F
  pub min : F → F → F
  pub sin : F → F
  pub cos : F → F
  pub lt : F → F → Bool
  pub compare : F → F → Option Ordering
  pub display : ℕ → Text
  -- the JSON texts of the metrics
  pub count_json : F → Text
  pub grounding_json : F → Text

-- The sums of the trajectories of a policy, and their number.
pub record Tally (F : Type 0) : Type 0 where
  pub energy : F
  pub risk : F
  pub duration : F
  pub count : ℕ

-- the order of strings, by bytes
unfoldable pub less : Text → Text → Bool
less [] [] = false
less [] (y ∷ ys) = true
less (x ∷ xs) [] = false
less (x ∷ xs) (y ∷ ys) = if x == y then less xs ys else ltb x y

unfoldable pub policy_name : (ℕ → Text) → ℕ → Text
policy_name display i =
    if i == 0
    then text "policy:conservative"
    else if i == 1
    then text "policy:balanced"
    else if i == 2
    then text "policy:aggressive"
    else text "policy:variant:" ++ display i

-- `n.max(2)`
unfoldable pub max_2 : ℕ → ℕ
max_2 n = if ltb n 2 then 2 else n
