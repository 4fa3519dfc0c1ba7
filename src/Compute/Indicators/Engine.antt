-- ===== src/Compute/Indicators/Engine.antt =====
-- ComputeEngine (packages/compute/stockstat_compute/compute_engine/engine.py): its methods, and the
-- attributes that it looks up. The names `compute`, `registry` and `list_indicators`, and those of
-- every object, are not followed.
use stock_statistic.Common.{
  Bool, false, ◌==◌, Option, none, some, List, [], ◌∷◌, ◌++◌, map, if◌then◌else◌,
}
use stock_statistic.Common.Integer.{pos}
use stock_statistic.Common.Text.{Text, codes, text_eq}
use stock_statistic.Common.Lists.{length}
use stock_statistic.Common.Dict
use stock_statistic.Common.Dict.{Dict, get}
use stock_statistic.Protocol.Value.{Value, null, int, float}
use stock_statistic.Compute.Indicators.{
  Signature, Called, type_error, accepts, bind_names, IndicatorRegistry, has_indicator, compute,
}

-- A method, which calls `compute` with its own name, its positional parameters as positional
-- arguments, and those with a default as keywords.
pub record Method : Type 0 where
  pub name : Text
  pub positional : List Text
  pub keywords : Dict Value

abbrev pub method : Text → List Text → Dict Value → Method
method name positional keywords = record {
  name = name;
  positional = positional;
  keywords = keywords;
}

abbrev pub methods : List Method
methods =
    method (codes "ma") (codes "data" ∷ []) ((codes "window", int (pos 20)) ∷ [])
    ∷ method (codes "sma") (codes "data" ∷ []) ((codes "window", int (pos 20)) ∷ [])
    ∷ method (codes "ema") (codes "data" ∷ []) ((codes "window", int (pos 12)) ∷ [])
    ∷ method (codes "wma") (codes "data" ∷ []) ((codes "window", int (pos 20)) ∷ [])
    ∷ method (codes "dema") (codes "data" ∷ []) ((codes "window", int (pos 20)) ∷ [])
    ∷ method (codes "tema") (codes "data" ∷ []) ((codes "window", int (pos 20)) ∷ [])
    ∷ method (codes "hma") (codes "data" ∷ []) ((codes "window", int (pos 20)) ∷ [])
    ∷ method (codes "macd") (codes "data" ∷ []) (
        (codes "fast", int (pos 12))
        ∷ (codes "slow", int (pos 26))
        ∷ (codes "signal", int (pos 9))
        ∷ [])
    ∷ method (codes "adx") (codes "high" ∷ codes "low" ∷ codes "close" ∷ [])
        ((codes "window", int (pos 14)) ∷ [])
    ∷ method (codes "dpo") (codes "data" ∷ []) ((codes "window", int (pos 20)) ∷ [])
    ∷ method (codes "trix") (codes "data" ∷ []) ((codes "window", int (pos 12)) ∷ [])
    ∷ method (codes "rsi") (codes "data" ∷ []) ((codes "window", int (pos 14)) ∷ [])
    ∷ method (codes "kd") (codes "high" ∷ codes "low" ∷ codes "close" ∷ [])
        ((codes "k_window", int (pos 9)) ∷ (codes "d_window", int (pos 3)) ∷ [])
    ∷ method (codes "williams_r") (codes "high" ∷ codes "low" ∷ codes "close" ∷ [])
        ((codes "window", int (pos 14)) ∷ [])
    ∷ method (codes "cci") (codes "high" ∷ codes "low" ∷ codes "close" ∷ [])
        ((codes "window", int (pos 20)) ∷ [])
    ∷ method (codes "stoch") (codes "high" ∷ codes "low" ∷ codes "close" ∷ [])
        ((codes "k_window", int (pos 14)) ∷ (codes "d_window", int (pos 3)) ∷ [])
    ∷ method (codes "bollinger") (codes "data" ∷ []) (
        (codes "window", int (pos 20))
        ∷ (codes "std", float (record { bits = 4611686018427387904 }))
        ∷ [])
    ∷ method (codes "atr") (codes "high" ∷ codes "low" ∷ codes "close" ∷ [])
        ((codes "window", int (pos 14)) ∷ [])
    ∷ method (codes "keltner") (codes "high" ∷ codes "low" ∷ codes "close" ∷ []) (
        (codes "window", int (pos 20))
        ∷ (codes "mult", float (record { bits = 4609434218613702656 }))
        ∷ [])
    ∷ method (codes "donchian") (codes "high" ∷ codes "low" ∷ [])
        ((codes "window", int (pos 20)) ∷ [])
    ∷ method (codes "stddev") (codes "data" ∷ []) ((codes "window", int (pos 20)) ∷ [])
    ∷ method (codes "rolling_corr") (codes "x" ∷ codes "y" ∷ [])
        ((codes "window", int (pos 20)) ∷ [])
    ∷ method (codes "rolling_beta") (codes "asset" ∷ codes "market" ∷ [])
        ((codes "window", int (pos 20)) ∷ [])
    ∷ method (codes "zscore") (codes "data" ∷ []) ((codes "window", int (pos 20)) ∷ [])
    ∷ method (codes "percentile") (codes "data" ∷ []) ((codes "window", int (pos 20)) ∷ [])
    ∷ method (codes "rolling_std") (codes "data" ∷ []) ((codes "window", int (pos 20)) ∷ [])
    ∷ method (codes "rolling_mean") (codes "data" ∷ []) ((codes "window", int (pos 20)) ∷ [])
    ∷ method (codes "hurst_rs") (codes "data" ∷ []) ([])
    ∷ method (codes "sample_entropy") (codes "data" ∷ [])
        ((codes "m", int (pos 2)) ∷ (codes "r", null) ∷ [])
    ∷ method (codes "permutation_entropy") (codes "data" ∷ [])
        ((codes "m", int (pos 4)) ∷ (codes "tau", int (pos 1)) ∷ [])
    ∷ []

-- The parameters of a method without `self`.
abbrev pub method_signature : Method → Signature
method_signature m = record {
  names = m.positional ++ Dict.keys m.keywords;
  defaults = length m.keywords;
}

abbrev pub value_or : Value → Option Value → Value
value_or default none = default
value_or default (some v) = v

abbrev pub given_values : Dict Value → List Text → List Value
given_values given ks = map (λ k. value_or null (get k given)) ks

abbrev pub given_or_default : Dict Value → Dict Value → Dict Value
given_or_default given [] = []
given_or_default given ((k, v) ∷ d) = (k, value_or v (get k given)) ∷ given_or_default given d

-- A call of a method.
unfoldable pub call_method :
    IndicatorRegistry → Method → (args : List Value) (kwargs : Dict Value) → Called
unfolding compute
call_method registry m args kwargs =
    if accepts (method_signature m) (length args) (Dict.keys kwargs)
    then (let given = bind_names (method_signature m).names args ++ kwargs in
        compute registry m.name (given_values given m.positional)
          (given_or_default given m.keywords))
    else type_error

abbrev pub find_method : Text → List Method → Option Method
find_method name [] = none
find_method name (m ∷ ms) = if text_eq m.name name then some m else find_method name ms

-- An attribute of an engine: a method, or what `__getattr__` gives.
pub data Attribute : Type 0 where
  own_method : Method → Attribute
  wrapper : Attribute
  no_attribute : Attribute

abbrev pub is_private : Text → Bool
is_private [] = false
is_private (c ∷ t) = c == 95

unfoldable pub found_attribute : IndicatorRegistry → Text → Option Method → Attribute
unfolding has_indicator
found_attribute registry name (some m) = own_method m
found_attribute registry name none =
    if is_private name
    then no_attribute
    else if has_indicator name registry
    then wrapper
    else no_attribute

unfoldable pub getattr_engine : IndicatorRegistry → Text → Attribute
unfolding found_attribute
getattr_engine registry name = found_attribute registry name (find_method name methods)
