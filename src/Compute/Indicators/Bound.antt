-- ===== src/Compute/Indicators/Bound.antt =====
-- The methods of ComputeEngine call indicators that there are, with arguments that they take
-- (packages/compute/stockstat_compute/compute_engine/engine.py).
use mathlib.Core.List.{Memᴰ}
use mathlib.Core.List.Memᴰ
use stock_statistic.Common.{
  ◌≡◌, refl, sym, ap, ◌∙◌, Bool, true, false, ◌&&◌, Option, none, some, List, [], ◌∷◌, ◌++◌, inl,
  inr, Bool-cases, arith,
}
use stock_statistic.Common.Text.{Text, text_eq, text_mem}
use stock_statistic.Common.Lists.{length, length-map}
use stock_statistic.Common.Dict
use stock_statistic.Common.Dict.{Dict, get}
use stock_statistic.Protocol.Value.{Value, null}
use stock_statistic.Compute.Indicators.{
  Signature, Called, Callable, accepts, bind_names, call, compute, IndicatorRegistry,
}
use stock_statistic.Compute.Indicators.Signatures.{signatures, callables, built_in}
use stock_statistic.Compute.Indicators.Engine.{
  Method, methods, method_signature, given_values, given_or_default, call_method, value_or,
}

-- Whether the function of the method's name takes what the method gives it.
abbrev fits_found : Option (Text × Signature) → Method → Bool
fits_found none m = false
fits_found (some (func, s)) m = accepts s (length m.positional) (Dict.keys m.keywords)

abbrev pub fits : Method → Bool
fits m = fits_found (get m.name signatures) m

abbrev all_fit : List Method → Bool
all_fit [] = true
all_fit (m ∷ ms) = fits m && all_fit ms

methods_fit : all_fit methods ≡ true
unfolding get text_eq text_mem
methods_fit = refl

fits_of_mem : (m : Method) (ms : List Method) → all_fit ms ≡ true → Memᴰ m ms → fits m ≡ true
fits_of_mem m [] h k = absurd (Memᴰ.not-nil k)
fits_of_mem m (n ∷ ms) h k = elim (Memᴰ.cases_cons k) [
  | inl same ↦ ap fits same ∙ ground (arith, h)
  | inr later ↦ fits_of_mem m ms (ground (arith, h)) later
]

get-callables :
    (bodies : Text → Dict Value → Called) (name : Text) (d : Dict (Text × Signature)) (func : Text)
    (s : Signature)
    → get name d ≡ some (func, s)
    → get name (callables bodies d) ≡ some (record { signature = s; body = bodies func })
unfolding get
get-callables bodies name [] func s e = cc
get-callables bodies name ((k, (f, t)) ∷ d) func s e = elim (Bool-cases (text_eq k name)) [
  | inl same ↦ rw same (cc (rw same at e))
  | inr other ↦ rw other (get-callables bodies name d func s (rw other at e))
]

compute-found :
    (registry : IndicatorRegistry) (name : Text) (f : Callable) (args : List Value)
    (params : Dict Value)
    → get name registry ≡ some f
    → accepts f.signature (length args) (Dict.keys params) ≡ true
    → compute registry name args params ≡ f.body (bind_names f.signature.names args ++ params)
unfolding compute call
compute-found registry name f args params e h = rw (e, compute) (rw h refl)

pub keys-given_or_default :
    (given d : Dict Value) → Dict.keys (given_or_default given d) ≡ Dict.keys d
keys-given_or_default given [] = refl
keys-given_or_default given ((k, v) ∷ d) = ap (λ ks. k ∷ ks) (keys-given_or_default given d)

-- The arguments of a call of a method, by name.
abbrev pub given_to : Method → List Value → Dict Value → Dict Value
given_to m args kwargs = bind_names (method_signature m).names args ++ kwargs

-- With the built-in indicators, a call of a method that its own parameters allow is a call of the
-- function that is registered under its name, with arguments that this function takes.
pub call_method-fits :
    (bodies : Text → Dict Value → Called) (m : Method) (args : List Value) (kwargs : Dict Value)
    → Memᴰ m methods
    → accepts (method_signature m) (length args) (Dict.keys kwargs) ≡ true
    → (func : Text) × (s : Signature) × (get m.name signatures ≡ some (func, s))
      × (call_method (built_in bodies) m args kwargs
          ≡ bodies func (
              bind_names s.names (given_values (given_to m args kwargs) m.positional)
              ++ given_or_default (given_to m args kwargs) m.keywords))
unfolding call_method built_in
call_method-fits bodies m args kwargs there allowed = go (get m.name signatures) refl
  where
    go :
        (found : Option (Text × Signature))
        → get m.name signatures ≡ found
        → (func : Text) × (s : Signature) × (get m.name signatures ≡ some (func, s))
          × (call_method (built_in bodies) m args kwargs
              ≡ bodies func (
                  bind_names s.names (given_values (given_to m args kwargs) m.positional)
                  ++ given_or_default (given_to m args kwargs) m.keywords))
    go none e = cc (ap (λ o. fits_found o m) e, fits_of_mem m methods methods_fit there)
    go (some (func, s)) e =
        let given = given_to m args kwargs in
        let fine : accepts s (length m.positional) (Dict.keys m.keywords) ≡ true =
          sym (ap (λ o. fits_found o m) e) ∙ fits_of_mem m methods methods_fit there in
        let counted : accepts s (length (given_values given m.positional))
              (Dict.keys (given_or_default given m.keywords))
            ≡ true =
          rw
            (
              length-map (λ k. value_or null (get k given)) m.positional,
              keys-given_or_default given m.keywords,
            )
            fine in
        (
          func,
          s,
          e,
          rw allowed (
              compute-found (built_in bodies) m.name (record { signature = s; body = bodies func })
                (given_values given m.positional) (given_or_default given m.keywords)
                (get-callables bodies m.name signatures func s e) counted),
        )
