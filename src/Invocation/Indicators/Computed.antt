-- ===== src/Invocation/Indicators/Computed.antt =====
-- Indicators that are computed with the local backend
-- (packages/invocation/stockstat/compute_api.py).
use mathlib.Core.List.{Memᴰ}
use mathlib.Core.Option.{some-injective}
use stock_statistic.Common.{
  ◌≡◌, refl, sym, ap, ◌∙◌, true, some, List, [], ◌∷◌, ◌++◌, Bool-cases, inl, inr,
}
use stock_statistic.Common.Text.{Text, text_eq, text_mem}
use stock_statistic.Common.Lists.{length, length-map, All}
use stock_statistic.Common.Members.{All-mem}
use stock_statistic.Common.Dict
use stock_statistic.Common.Dict.{Dict, get}
use stock_statistic.Protocol.Value.{Value, null}
use stock_statistic.Compute.Indicators.{Signature, Called, accepts, bind_names, IndicatorRegistry}
use stock_statistic.Compute.Indicators.Signatures.{signatures, built_in}
use stock_statistic.Compute.Indicators.Engine.{
  Method, methods, found_attribute, method_signature, given_values, given_or_default, find_method,
  getattr_engine, call_method, value_or,
}
use stock_statistic.Compute.Indicators.Bound.{given_to, call_method-fits, keys-given_or_default}
use stock_statistic.Invocation.Client.{Fresh}
use stock_statistic.Invocation.Indicators.{
  api_methods, computed, call_attribute, compute_locally, dispatch_indicator, call_api,
}

-- A method of the client is a method of the engine, with the same parameters and defaults, and
-- what it passes on is what that method takes.
abbrev IsOwn : Method → Type 0
IsOwn m =
    (find_method m.name methods ≡ some m)
    × (accepts (method_signature m) (length m.positional) (Dict.keys m.keywords) ≡ true)

All-IsOwn : All IsOwn api_methods
unfolding text_eq text_mem
All-IsOwn = (
  (refl, refl),
  (
    (refl, refl),
    (
      (refl, refl),
      (
        (refl, refl),
        (
          (refl, refl),
          (
            (refl, refl),
            (
              (refl, refl),
              (
                (refl, refl),
                (
                  (refl, refl),
                  (
                    (refl, refl),
                    (
                      (refl, refl),
                      (
                        (refl, refl),
                        (
                          (refl, refl),
                          (
                            (refl, refl),
                            (
                              (refl, refl),
                              (
                                (refl, refl),
                                (
                                  (refl, refl),
                                  (
                                    (refl, refl),
                                    (
                                      (refl, refl),
                                      (
                                        (refl, refl),
                                        ((refl, refl), ((refl, refl), ((refl, refl), tt))),
                                      ),
                                    ),
                                  ),
                                ),
                              ),
                            ),
                          ),
                        ),
                      ),
                    ),
                  ),
                ),
              ),
            ),
          ),
        ),
      ),
    ),
  ),
)

mem_of_find_method :
    (name : Text) (m : Method) (ms : List Method) → find_method name ms ≡ some m → Memᴰ m ms
mem_of_find_method name m [] e = cc
mem_of_find_method name m (n ∷ ms) e = elim (Bool-cases (text_eq n.name name)) [
  | inl same ↦ Memᴰ.head (sym (some-injective n m (rw same at e)))
  | inr other ↦ Memᴰ.tail (mem_of_find_method name m ms (rw other at e))
]

compute_locally-method :
    (registry : IndicatorRegistry) (m : Method) (args : List Value) (params : Dict Value)
    → find_method m.name methods ≡ some m
    → compute_locally registry m.name args params ≡ call_method registry m args params
unfolding compute_locally getattr_engine found_attribute
compute_locally-method registry m args params e =
    ap (λ found. call_attribute registry m.name args params (found_attribute registry m.name found))
      e

-- A call of a method of the client that its parameters allow, with the local backend, is a call of
-- the built-in function of that name, with arguments that this function takes.
pub call_api-local :
    (bodies : Text → Dict Value → Called) (f : Fresh) (m : Method) (args : List Value)
    (kwargs : Dict Value)
    → Memᴰ m api_methods
    → accepts (method_signature m) (length args) (Dict.keys kwargs) ≡ true
    → let given = given_to m args kwargs in
      let args' = given_values given m.positional in
      let again = given_to m args' (given_or_default given m.keywords) in
      (func : Text) × (s : Signature) × (get m.name signatures ≡ some (func, s))
      × (call_api true (built_in bodies) f m args kwargs
          ≡ computed (
              bodies func (
                bind_names s.names (given_values again m.positional)
                ++ given_or_default again m.keywords)))
unfolding call_api dispatch_indicator
call_api-local bodies f m args kwargs there allowed =
    let own = All-mem IsOwn All-IsOwn there in
    let given = given_to m args kwargs in
    let args' = given_values given m.positional in
    let params = given_or_default given m.keywords in
    let fits : accepts (method_signature m) (length args') (Dict.keys params) ≡ true =
      rw
        (
          length-map (λ k. value_or null (get k given)) m.positional,
          keys-given_or_default given m.keywords,
        )
        (own.1) in
    let (func, s, known, called) =
      call_method-fits bodies m args' params (mem_of_find_method m.name m methods own.0) fits in
    (
      func,
      s,
      known,
      rw allowed
          (ap computed (compute_locally-method (built_in bodies) m args' params own.0 ∙ called)),
    )
