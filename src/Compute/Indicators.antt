-- ===== src/Compute/Indicators.antt =====
-- The registry of the indicators (packages/compute/stockstat_compute/compute_engine/registry.py),
-- and how Python binds the arguments of a call. What an indicator computes is a parameter.
pub mod Signatures
pub mod Engine
pub mod Bound
use stock_statistic.Common.{
  ℕ, zero, suc, ◌+◌, ◌-◌, Bool, true, false, not, ◌&&◌, Option, none, some, List, [], ◌∷◌, ◌++◌,
  map, leb, if◌then◌else◌, is_some,
}
use stock_statistic.Common.Text.{Text, text_eq, text_mem}
use stock_statistic.Common.Lists.{length, take, drop}
use stock_statistic.Common.Dict
use stock_statistic.Common.Dict.{Dict, get, put}
use stock_statistic.Protocol.Value.{Value, text}
use stock_statistic.Protocol.CacheKey.{sort_texts}

-- The names of a function's parameters, of which the last `defaults` have a default.
pub record Signature : Type 0 where
  pub names : List Text
  pub defaults : ℕ

-- What a call does; the messages are left out but for that of a function's own exception.
pub data Called : Type 0 where
  gives : Value → Called
  key_error : (key : Value) → Called
  type_error : Called
  attribute_error : (name : Text) → Called
  value_error : Called
  raises : (message : Text) → Called

-- A function without `*args` and `**kwargs`; its body takes the arguments by name, and puts the
-- defaults for the rest.
pub record Callable : Type 0 where
  pub signature : Signature
  pub body : Dict Value → Called

abbrev pub all_in : (Text → Bool) → List Text → Bool
all_in p [] = true
all_in p (k ∷ ks) = p k && all_in p ks

-- Whether `n` positional arguments and these keywords fit the parameters: not too many, no
-- unknown keyword and none for a positional argument, and nothing without default left out.
abbrev pub accepts : Signature → (n : ℕ) → (keywords : List Text) → Bool
accepts s n keywords =
    leb n (length s.names)
    && all_in (λ k. text_mem k (drop n s.names)) keywords
    && all_in (λ k. text_mem k keywords) (drop n (take (length s.names - s.defaults) s.names))

abbrev pub bind_names : List Text → List Value → Dict Value
bind_names [] args = []
bind_names (k ∷ ks) [] = []
bind_names (k ∷ ks) (v ∷ vs) = (k, v) ∷ bind_names ks vs

-- `f(*args, **kwargs)`
unfoldable pub call : Callable → (args : List Value) (kwargs : Dict Value) → Called
call f args kwargs =
    if accepts f.signature (length args) (Dict.keys kwargs)
    then f.body (bind_names f.signature.names args ++ kwargs)
    else type_error

-- `IndicatorRegistry`, whose dictionary belongs to the class.
abbrev pub IndicatorRegistry : Type 0
IndicatorRegistry = Dict Callable

unfoldable pub register_indicator : Text → Callable → IndicatorRegistry → IndicatorRegistry
register_indicator name func registry = put name func registry

unfoldable pub has_indicator : Text → IndicatorRegistry → Bool
has_indicator name registry = is_some (get name registry)

unfoldable pub list_indicators : IndicatorRegistry → List Text
list_indicators registry = sort_texts (Dict.keys registry)

-- `ComputeEngine.compute`: a name that is not registered raises a KeyError.
unfoldable pub compute :
    IndicatorRegistry → (name : Text) (args : List Value) (params : Dict Value) → Called
unfolding call
compute registry name args params = elim (get name registry) [
  | none ↦ key_error (text name)
  | some func ↦ call func args params
]
