-- ===== src/Compute/Handlers.antt =====
-- The registry of the handlers and the route of a task to its handler
-- (packages/compute/stockstat_compute/handlers/_base.py), and the handler of indicators beside it
-- (backtest/indicator.py).
use stock_statistic.Common.{
  ℕ, ◌==◌, Bool, false, ◌||◌, Option, none, some, List, [], ◌∷◌, ltb, if◌then◌else◌,
}
use stock_statistic.Common.Integer.{pos, negsuc}
use stock_statistic.Common.Text.{Text, codes}
use stock_statistic.Common.Dict
use stock_statistic.Common.Dict.{Dict, get, put, erase}
use stock_statistic.Protocol.Value.{
  Value, null, bool, int, float, text, object, list, dict, nil, cons, empty, field,
}
use stock_statistic.Protocol.Task.{TaskSpec}
use stock_statistic.Protocol.CacheKey.{sort_texts}
use stock_statistic.Dispatch.Assign.{inline_key}
use stock_statistic.Compute.Indicators.{
  Called, key_error, type_error, value_error, IndicatorRegistry, compute,
}

-- `Stream`: chunks, and what was collected; an empty list of chunks is as none.
pub record Stream : Type 0 where
  pub chunks : List Value
  pub collected : Option Value

abbrev pub stream_from_data : Value → Stream
stream_from_data null = record { chunks = []; collected = none }
stream_from_data v = record { chunks = []; collected = some v }

-- What an iteration over a stream yields.
unfoldable pub iterate_stream : Stream → List Value
iterate_stream s = elim s.chunks [
  | c ∷ cs ↦ c ∷ cs
  | [] ↦ elim s.collected [ none ↦ [] | some v ↦ v ∷ [] ]
]

-- `collect`, where `concat` is pandas'.
unfoldable pub collect_stream : (concat : List Value → Value) → Stream → Stream × Value
collect_stream concat s = elim s.collected [
  | some v ↦ (s, v)
  | none ↦ elim s.chunks [
    | [] ↦ (s, null)
    | c ∷ cs ↦ (record s { collected = some (concat (c ∷ cs)) }, concat (c ∷ cs))
  ]
]

-- What a handler is given: the data, or a stream of it.
pub data Input : Type 0 where
  plain : Value → Input
  streamed : Stream → Input

-- What is called with the number of the completed parts and of all.
pub data Callback : Type 0 where
  no_progress : Callback
  given_progress : Callback
  worker_progress : Callback

pub record Handler (R : Type 0) : Type 0 where
  pub is_stream_aware : Bool
  pub handle : TaskSpec → Input → Callback → R

-- The result of a handler, or the error that no handler has this type, with those there are.
pub data Dispatched (R : Type 0) : Type 0 where
  handled : R → Dispatched R
  no_handler : (task_type : Text) (available : List Text) → Dispatched R

abbrev pub param_or_null : Option Value → Value
param_or_null none = null
param_or_null (some v) = v

-- The data, and the parameters that are left: inline data is taken where there is no other.
abbrev pub take_inline : Value → Dict Value → Value × Dict Value
take_inline null params = elim (param_or_null (get inline_key params)) [
  | null ↦ (null, params)
  | v ↦ (v, erase inline_key params)
]
take_inline v params = (v, params)

abbrev pub with_params : TaskSpec → Dict Value → TaskSpec
with_params spec params =
    let cs = spec.compute_spec in record spec { compute_spec = record cs { params = params } }

-- The callback: the one that is given, or else the worker's.
abbrev pub progress_for : (on_progress has_worker : Bool) → Callback
progress_for on_progress has_worker =
    if on_progress then given_progress else if has_worker then worker_progress else no_progress

module _ {R : Type 0} where
  unfoldable pub register_handler : Text → Handler R → Dict (Handler R) → Dict (Handler R)
  register_handler task_type h handlers = put task_type h handlers

  unfoldable pub list_task_types : Dict (Handler R) → List Text
  list_task_types handlers = sort_texts (Dict.keys handlers)

  unfoldable pub dispatch :
      Dict (Handler R) → (on_progress has_worker : Bool) → TaskSpec → Value → Dispatched R
  unfolding list_task_types
  dispatch handlers on_progress has_worker spec v =
      let (taken, params) = take_inline v spec.compute_spec.params in
      let spec' = with_params spec params in
      elim (get spec.compute_spec.task_type handlers) [
        | none ↦ no_handler spec.compute_spec.task_type (list_task_types handlers)
        | some h ↦
            let input =
              if h.is_stream_aware then streamed (stream_from_data taken) else plain taken in
            handled (h.handle spec' input (progress_for on_progress has_worker))
      ]

-- The quotient that the worker's callback reports, zero of nothing; none for a total of zero.
abbrev pub progress_quotient : (completed total : ℕ) → Option (ℕ × ℕ)
progress_quotient completed total = if ltb 0 total then some (completed, total) else none

abbrev pub data_of_input : Input → Value
data_of_input (plain v) = v
data_of_input (streamed s) = param_or_null s.collected

abbrev pub name_key : Text
name_key = codes "indicator_name"

-- A value that is no name: one that is false in Python is refused, and so is an object, whose truth
-- pandas does not give; of the others, a list or dictionary cannot be looked up, and the rest are
-- no name of an indicator.
abbrev pub not_named : Value → Called
not_named null = value_error
not_named (bool b) = if b then key_error (bool b) else value_error
not_named (int (pos n)) = if n == 0 then value_error else key_error (int (pos n))
not_named (int (negsuc n)) = key_error (int (negsuc n))
not_named (float x) =
    if x.bits == 0 || x.bits == 9223372036854775808 then value_error else key_error (float x)
not_named (text t) = value_error
not_named (object o) = value_error
not_named (list nil) = value_error
not_named (list (cons v vs)) = type_error
not_named (dict empty) = value_error
not_named (dict (field k v d)) = type_error

abbrev pub compute_named : IndicatorRegistry → Value → Value → Dict Value → Called
compute_named registry (text (c ∷ t)) v params = compute registry (c ∷ t) (v ∷ []) params
compute_named registry name v params = not_named name

-- `handle_indicator`
unfoldable pub handle_indicator : IndicatorRegistry → TaskSpec → Value → Called
unfolding compute
handle_indicator registry spec v =
    let params = spec.compute_spec.params in
    compute_named registry (param_or_null (get name_key params)) v (erase name_key params)

abbrev pub indicator_handler : IndicatorRegistry → Handler Called
indicator_handler registry = record {
  is_stream_aware = false;
  handle = λ spec input progress. handle_indicator registry spec (data_of_input input);
}
