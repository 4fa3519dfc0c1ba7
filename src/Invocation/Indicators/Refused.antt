-- ===== src/Invocation/Indicators/Refused.antt =====
-- Indicators that are submitted as tasks
-- (packages/invocation/stockstat/compute_api.py and
-- packages/compute/stockstat_compute/handlers/backtest/indicator.py).
use mathlib.Core.Path.{subst}
use mathlib.Core.Option.{some-injective}
use stock_statistic.Common.{
  ℕ, zero, suc, ◌≡◌, ◌⊎◌, refl, Bool, true, false, not, ◌&&◌, ◌||◌, ◌==◌, some, List, [], ◌∷◌, inl,
  inr, Bool-cases, Option-cases, is_some, if◌then◌else◌, arith,
}
use stock_statistic.Common.Integer.{pos, negsuc}
use stock_statistic.Common.Text.{Text, codes, text_eq, text_mem, text_eq_iff}
use stock_statistic.Common.Lists.{length, drop}
use stock_statistic.Common.Dict
use stock_statistic.Common.Dict.{Dict, get, put, erase, get-put, get-erase}
use stock_statistic.Protocol.Value.{
  Value, null, bool, int, float, text, object, list, dict, nil, cons, empty, field,
}
use stock_statistic.Protocol.Task.{TaskSpec}
use stock_statistic.Dispatch.Assign.{inline_key, inline_b64_key, strip_inline}
use stock_statistic.Compute.Indicators.{
  Signature, Callable, Called, type_error, key_error, value_error, accepts, all_in, call, compute,
  IndicatorRegistry,
}
use stock_statistic.Compute.Indicators.Signatures.{signatures, callables, built_in}
use stock_statistic.Compute.Handlers.{
  take_inline, Handler, with_params, dispatch, handled, indicator_handler, handle_indicator,
  compute_named, not_named, name_key, param_or_null,
}
use stock_statistic.Invocation.Client.{Fresh, indicator_spec, update_all, arg_params}

-- A call that gives no value.
abbrev pub GivesNothing : Called → Type 0
GivesNothing c = (c ≡ type_error) ⊎ ((c ≡ value_error) ⊎ ((key : Value) × (c ≡ key_error key)))

abbrev pub first_arg : Text
first_arg = codes "_arg_0"

abbrev pub Has : Text → Dict Value → Type 0
Has k d = is_some (get k d) ≡ true

Has-put : (k j : Text) (v : Value) (d : Dict Value) → Has k d → Has k (put j v d)
Has-put k j v d h = ground (arith, get-put j k v d)

Has-update_all : (k : Text) (d e : Dict Value) → Has k d → Has k (update_all d e)
Has-update_all k d [] h = h
Has-update_all k d ((j, v) ∷ e) h = Has-update_all k (put j v d) e (Has-put k j v d h)

Has-erase : (k j : Text) (d : Dict Value) → text_eq j k ≡ false → Has k d → Has k (erase j d)
Has-erase k j d e h = ground (arith, get-erase j k d)

-- A keyword that a function does not have is refused.
all_in-keys :
    (p : Text → Bool) (k : Text) (d : Dict Value)
    → Has k d
    → p k ≡ false
    → all_in p (Dict.keys d) ≡ false
unfolding get
all_in-keys p k [] h e = cc
all_in-keys p k ((j, v) ∷ d) h e = elim (Bool-cases (text_eq j k)) [
  | inl same ↦ rw ((text_eq_iff j k).0 same) (rw e refl)
  | inr other ↦ ground (arith, all_in-keys p k d (rw other at h) e)
]

text_mem-drop :
    (k : Text) (n : ℕ) (ts : List Text) → text_mem k ts ≡ false → text_mem k (drop n ts) ≡ false
unfolding text_mem
text_mem-drop k zero ts h = h
text_mem-drop k (suc n) [] h = refl
text_mem-drop k (suc n) (t ∷ ts) h = text_mem-drop k n ts (ground (arith, h))

accepts_unknown :
    (s : Signature) (n : ℕ) (k : Text) (d : Dict Value)
    → text_mem k s.names ≡ false
    → Has k d
    → accepts s n (Dict.keys d) ≡ false
accepts_unknown s n k d h there =
    let e =
      all_in-keys (λ j. text_mem j (drop n s.names)) k d there (text_mem-drop k n s.names h) in
    rw e (ground arith)

-- No indicator has a parameter of the name that the client gives the first argument.
abbrev none_named : Text → Dict (Text × Signature) → Bool
none_named k [] = true
none_named k ((name, (func, s)) ∷ d) = not (text_mem k s.names) && none_named k d

none_named_first : none_named first_arg signatures ≡ true
unfolding text_mem text_eq
none_named_first = refl

names_of_found :
    (k name : Text) (bodies : Text → Dict Value → Called) (d : Dict (Text × Signature))
    (f : Callable)
    → none_named k d ≡ true
    → get name (callables bodies d) ≡ some f
    → text_mem k f.signature.names ≡ false
unfolding get
names_of_found k name bodies [] f h e = cc
names_of_found k name bodies ((j, (func, s)) ∷ d) f h e = elim (Bool-cases (text_eq j name)) [
  | inl same ↦
      let found = some-injective _ _ (rw same at e) in
      subst (λ (g : Callable). text_mem k g.signature.names ≡ false) (found) (ground (arith, h))
  | inr other ↦ names_of_found k name bodies d f (ground (arith, h)) (rw other at e)
]

compute_unknown :
    (registry : IndicatorRegistry) (name k : Text) (args : List Value) (params : Dict Value)
    → ((f : Callable) → get name registry ≡ some f → text_mem k f.signature.names ≡ false)
    → Has k params
    → GivesNothing (compute registry name args params)
unfolding compute call
compute_unknown registry name k args params h there = elim (Option-cases (get name registry)) [
  | inl missing ↦ rw (missing, compute) (inr (inr (text name, refl)))
  | inr (f, found) ↦
      let e = accepts_unknown f.signature (length args) k params (h f found) there in
      rw (found, compute) (rw e (inl refl))
]

if_refused : (b : Bool) (key : Value) → GivesNothing (if b then value_error else key_error key)
if_refused true key = inr (inl refl)
if_refused false key = inr (inr (key, refl))

not_named-GivesNothing : (name : Value) → GivesNothing (not_named name)
not_named-GivesNothing null = inr (inl refl)
not_named-GivesNothing (bool true) = inr (inr (bool true, refl))
not_named-GivesNothing (bool false) = inr (inl refl)
not_named-GivesNothing (int (pos n)) = if_refused (n == 0) (int (pos n))
not_named-GivesNothing (int (negsuc n)) = inr (inr (int (negsuc n), refl))
not_named-GivesNothing (float x) =
    if_refused (x.bits == 0 || x.bits == 9223372036854775808) (float x)
not_named-GivesNothing (text t) = inr (inl refl)
not_named-GivesNothing (object o) = inr (inl refl)
not_named-GivesNothing (list nil) = inr (inl refl)
not_named-GivesNothing (list (cons v vs)) = inl refl
not_named-GivesNothing (dict empty) = inr (inl refl)
not_named-GivesNothing (dict (field k v d)) = inl refl

module _ (bodies : Text → Dict Value → Called) where
  compute_named-GivesNothing :
      (name v : Value) (params : Dict Value)
      → Has first_arg params
      → GivesNothing (compute_named (built_in bodies) name v params)
  unfolding built_in
  compute_named-GivesNothing (text (c ∷ t)) v params h =
      compute_unknown (callables bodies signatures) (c ∷ t) first_arg (v ∷ []) params
        (λ f. names_of_found first_arg (c ∷ t) bodies signatures f none_named_first) h
  compute_named-GivesNothing name v params h = not_named-GivesNothing name

  handle_indicator-GivesNothing :
      (spec : TaskSpec) (v : Value)
      → Has first_arg spec.compute_spec.params
      → GivesNothing (handle_indicator (built_in bodies) spec v)
  unfolding handle_indicator text_eq
  handle_indicator-GivesNothing spec v h =
      compute_named-GivesNothing (param_or_null (get name_key spec.compute_spec.params)) v
        (erase name_key spec.compute_spec.params)
        (Has-erase first_arg name_key spec.compute_spec.params refl h)

  Has-inline :
      (found : Value) (params : Dict Value)
      → Has first_arg params
      → Has first_arg
          (elim found as (λ x. Value × Dict Value) [
            | null ↦ (null, params)
            | w ↦ (w, erase inline_key params)
          ]).1
  unfolding text_eq
  Has-inline null params h = h
  Has-inline _ params h = Has-erase first_arg inline_key params refl h

  Has-take_inline :
      (v : Value) (params : Dict Value)
      → Has first_arg params
      → Has first_arg (take_inline v params).1
  Has-take_inline null params h = Has-inline (param_or_null (get inline_key params)) params h
  Has-take_inline _ params h = h

  -- A task of an indicator with such a parameter, whatever data it is given.
  dispatch-GivesNothing :
      (handlers : Dict (Handler Called)) (on_progress has_worker : Bool) (spec : TaskSpec)
      (v : Value)
      → get spec.compute_spec.task_type handlers ≡ some (indicator_handler (built_in bodies))
      → Has first_arg spec.compute_spec.params
      → (c : Called) × (dispatch handlers on_progress has_worker spec v ≡ handled c)
        × GivesNothing c
  unfolding dispatch
  dispatch-GivesNothing handlers on_progress has_worker spec v known h =
      let taken = take_inline v spec.compute_spec.params in
      let spec' = with_params spec taken.1 in
      (
        handle_indicator (built_in bodies) spec' taken.0,
        rw (known, dispatch) refl,
        handle_indicator-GivesNothing spec' taken.0 (Has-take_inline v spec.compute_spec.params h),
      )

  Has-updated : (k : Text) (d e : Dict Value) → Has k e → Has k (update_all d e)
  unfolding get
  Has-updated k d [] h = cc
  Has-updated k d ((j, v) ∷ e) h = elim (Bool-cases (text_eq j k)) [
    | inl same ↦ Has-update_all k (put j v d) e (ground (arith, get-put j k v d, same))
    | inr other ↦ Has-updated k (put j v d) e (rw other at h)
  ]

  Has-indicator_spec :
      (f : Fresh) (name : Text) (v : Value) (vs : List Value) (params : Dict Value)
      → Has first_arg (indicator_spec f name (v ∷ vs) params).compute_spec.params
  unfolding indicator_spec
  Has-indicator_spec f name v vs params = Has-updated first_arg ((name_key, text name) ∷ []) _ (
      Has-put first_arg inline_key v (update_all ((first_arg, v) ∷ arg_params 1 vs) params) (
        Has-update_all first_arg ((first_arg, v) ∷ arg_params 1 vs) params
          (unfold get text_eq in refl)))

  Has-strip_inline :
      (spec : TaskSpec)
      → Has first_arg spec.compute_spec.params
      → Has first_arg (strip_inline spec).compute_spec.params
  unfolding strip_inline text_eq
  Has-strip_inline spec h =
      Has-erase first_arg inline_b64_key (erase inline_key spec.compute_spec.params) refl
        (Has-erase first_arg inline_key spec.compute_spec.params refl h)

  -- An indicator that the client submits as a task, with one argument or more, is never computed:
  -- the handler of the built-in indicators raises, both where the task is run as it was built and
  -- where a dispatcher has taken the inline data out of it and the worker has the data, because the
  -- argument's name `_arg_0` is a parameter of no indicator.
  pub indicator_spec-GivesNothing :
      (handlers : Dict (Handler Called)) (on_progress has_worker : Bool) (f : Fresh) (name : Text)
      (v : Value) (vs : List Value) (params : Dict Value) (w : Value)
      → get (codes "indicator") handlers ≡ some (indicator_handler (built_in bodies))
      → let spec = indicator_spec f name (v ∷ vs) params in
        ((c : Called) × (dispatch handlers on_progress has_worker spec w ≡ handled c)
          × GivesNothing c)
        × ((c : Called) × (dispatch handlers on_progress has_worker (strip_inline spec) w
              ≡ handled c)
            × GivesNothing c)
  unfolding indicator_spec strip_inline
  indicator_spec-GivesNothing handlers on_progress has_worker f name v vs params w known =
      let spec = indicator_spec f name (v ∷ vs) params in
      let there = Has-indicator_spec f name v vs params in
      (
        dispatch-GivesNothing handlers on_progress has_worker spec w known there,
        dispatch-GivesNothing handlers on_progress has_worker (strip_inline spec) w known
            (Has-strip_inline spec there),
      )
