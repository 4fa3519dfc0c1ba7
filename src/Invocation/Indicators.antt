-- ===== src/Invocation/Indicators.antt =====
-- The indicators of the client's ComputeAPI
-- (packages/invocation/stockstat/compute_api.py): computed at once with the local backend, and
-- submitted as a task to any other.
pub mod Refused
pub mod Computed
use stock_statistic.Common.{
  ℕ, Bool, true, false, Option, none, some, List, [], ◌∷◌, ◌++◌, map, if◌then◌else◌,
}
use stock_statistic.Common.Integer.{ℤ, pos}
use stock_statistic.Common.Text.{Text, codes}
use stock_statistic.Common.Lists.{length}
use stock_statistic.Common.Dict
use stock_statistic.Common.Dict.{Dict}
use stock_statistic.Protocol.Value.{Value, null, int, float}
use stock_statistic.Protocol.Task.{TaskSpec}
use stock_statistic.Compute.Indicators.{
  Called, type_error, accepts, bind_names, IndicatorRegistry, compute,
}
use stock_statistic.Compute.Indicators.Engine.{
  Method, method, method_signature, given_values, given_or_default, Attribute, own_method, wrapper,
  no_attribute, getattr_engine, call_method,
}
use stock_statistic.Invocation.Client.{Fresh, indicator_spec}

-- A method calls `_dispatch_indicator` with its own name, its positional parameters as positional
-- arguments, and those with a default as keywords.
abbrev pub api_methods : List Method
api_methods =
    method (codes "ma") (codes "data" ∷ []) ((codes "window", int (pos 20)) ∷ [])
    ∷ method (codes "ema") (codes "data" ∷ []) ((codes "window", int (pos 12)) ∷ [])
    ∷ method (codes "rsi") (codes "data" ∷ []) ((codes "window", int (pos 14)) ∷ [])
    ∷ method (codes "macd") (codes "data" ∷ []) (
        (codes "fast", int (pos 12))
        ∷ (codes "slow", int (pos 26))
        ∷ (codes "signal", int (pos 9))
        ∷ [])
    ∷ method (codes "bollinger") (codes "data" ∷ []) (
        (codes "window", int (pos 20))
        ∷ (codes "std", float (record { bits = 4611686018427387904 }))
        ∷ [])
    ∷ method (codes "atr") (codes "high" ∷ codes "low" ∷ codes "close" ∷ [])
        ((codes "window", int (pos 14)) ∷ [])
    ∷ method (codes "wma") (codes "data" ∷ []) ((codes "window", int (pos 20)) ∷ [])
    ∷ method (codes "dema") (codes "data" ∷ []) ((codes "window", int (pos 20)) ∷ [])
    ∷ method (codes "tema") (codes "data" ∷ []) ((codes "window", int (pos 20)) ∷ [])
    ∷ method (codes "hma") (codes "data" ∷ []) ((codes "window", int (pos 20)) ∷ [])
    ∷ method (codes "adx") (codes "high" ∷ codes "low" ∷ codes "close" ∷ [])
        ((codes "window", int (pos 14)) ∷ [])
    ∷ method (codes "kd") (codes "high" ∷ codes "low" ∷ codes "close" ∷ [])
        ((codes "k_window", int (pos 9)) ∷ (codes "d_window", int (pos 3)) ∷ [])
    ∷ method (codes "cci") (codes "high" ∷ codes "low" ∷ codes "close" ∷ [])
        ((codes "window", int (pos 20)) ∷ [])
    ∷ method (codes "williams_r") (codes "high" ∷ codes "low" ∷ codes "close" ∷ [])
        ((codes "window", int (pos 14)) ∷ [])
    ∷ method (codes "donchian") (codes "high" ∷ codes "low" ∷ [])
        ((codes "window", int (pos 20)) ∷ [])
    ∷ method (codes "keltner") (codes "high" ∷ codes "low" ∷ codes "close" ∷ []) (
        (codes "window", int (pos 20))
        ∷ (codes "mult", float (record { bits = 4609434218613702656 }))
        ∷ [])
    ∷ method (codes "stddev") (codes "data" ∷ []) ((codes "window", int (pos 20)) ∷ [])
    ∷ method (codes "zscore") (codes "data" ∷ []) ((codes "window", int (pos 20)) ∷ [])
    ∷ method (codes "rolling_corr") (codes "x" ∷ codes "y" ∷ [])
        ((codes "window", int (pos 20)) ∷ [])
    ∷ method (codes "rolling_beta") (codes "asset" ∷ codes "market" ∷ [])
        ((codes "window", int (pos 20)) ∷ [])
    ∷ method (codes "hurst_rs") (codes "data" ∷ []) ([])
    ∷ method (codes "sample_entropy") (codes "data" ∷ [])
        ((codes "m", int (pos 2)) ∷ (codes "r", null) ∷ [])
    ∷ method (codes "permutation_entropy") (codes "data" ∷ [])
        ((codes "m", int (pos 4)) ∷ (codes "tau", int (pos 1)) ∷ [])
    ∷ []

-- What `_dispatch_indicator` does: an indicator is computed, or its task is submitted and waited
-- for.
pub data Sent : Type 0 where
  computed : Called → Sent
  submitted : TaskSpec → Sent

abbrev pub call_attribute :
    IndicatorRegistry → (name : Text) (args : List Value) (params : Dict Value) → Attribute → Called
call_attribute registry name args params (own_method m) = call_method registry m args params
call_attribute registry name args params wrapper = compute registry name args params
call_attribute registry name args params no_attribute = compute registry name args params

-- The local path. An attribute that is missing is looked up in the registry.
unfoldable pub compute_locally :
    IndicatorRegistry → (name : Text) (args : List Value) (params : Dict Value) → Called
unfolding getattr_engine call_method
compute_locally registry name args params =
    call_attribute registry name args params (getattr_engine registry name)

-- `is_local` says whether the backend has the method `compute_indicator`.
unfoldable pub dispatch_indicator :
    (is_local : Bool)
    → IndicatorRegistry
    → Fresh
    → (name : Text) (args : List Value) (params : Dict Value) → Sent
unfolding compute_locally indicator_spec
dispatch_indicator is_local registry f name args params =
    if is_local
    then computed (compute_locally registry name args params)
    else submitted (indicator_spec f name args params)

-- A call of a method of the API.
unfoldable pub call_api :
    (is_local : Bool)
    → IndicatorRegistry
    → Fresh
    → Method
    → (args : List Value) (kwargs : Dict Value) → Sent
unfolding dispatch_indicator
call_api is_local registry f m args kwargs =
    if accepts (method_signature m) (length args) (Dict.keys kwargs)
    then (let given = bind_names (method_signature m).names args ++ kwargs in
        dispatch_indicator is_local registry f m.name (given_values given m.positional)
          (given_or_default given m.keywords))
    else computed type_error
