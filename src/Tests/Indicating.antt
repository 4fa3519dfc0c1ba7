-- ===== src/Tests/Indicating.antt =====
-- Indicators that the client asks for, and methods of the engine.
use mathlib.Core.List.{Memᴰ}
use stock_statistic.Common.{◌≡◌, refl, true, false, some, [], ◌∷◌, ◌++◌}
use stock_statistic.Common.Integer.{pos}
use stock_statistic.Common.Text.{Text, codes, text_eq, text_mem}
use stock_statistic.Common.Dict.{Dict, get}
use stock_statistic.Protocol.Value.{Value, object, int, null}
use stock_statistic.Dispatch.Assign.{strip_inline}
use stock_statistic.Compute.Indicators.{Signature, Called, gives, bind_names}
use stock_statistic.Compute.Indicators.Signatures.{signatures, built_in}
use stock_statistic.Compute.Indicators.Engine.{Method, method, given_values, given_or_default}
use stock_statistic.Compute.Indicators.Bound.{given_to}
use stock_statistic.Compute.Handlers.{Handler, dispatch, handled, indicator_handler}
use stock_statistic.Invocation.Client.{Fresh, indicator_spec}
use stock_statistic.Invocation.Indicators.{computed, call_api}
use stock_statistic.Invocation.Indicators.Computed.{call_api-local}
use stock_statistic.Invocation.Indicators.Refused.{GivesNothing, indicator_spec-GivesNothing}

-- Every function gives its first argument.
abbrev first_given : Text → Dict Value → Called
first_given func [] = gives null
first_given func ((k, v) ∷ given) = gives v

abbrev ma_method : Method
ma_method = method (codes "ma") (codes "data" ∷ []) ((codes "window", int (pos 20)) ∷ [])

abbrev drawn_twice : Fresh
drawn_twice = record { task_id = codes "t1"; trace_id = codes "trace"; now = 5 }

abbrev window_five : Dict Value
window_five = (codes "window", int (pos 5)) ∷ []

abbrev given_ma : Dict Value
given_ma = given_to ma_method (object 3 ∷ []) window_five

abbrev given_ma_again : Dict Value
given_ma_again =
    given_to ma_method (given_values given_ma (codes "data" ∷ []))
      (given_or_default given_ma ((codes "window", int (pos 20)) ∷ []))

call_api-local_example :
    (func : Text) × (s : Signature) × (get (codes "ma") signatures ≡ some (func, s))
    × (call_api true (built_in first_given) drawn_twice ma_method (object 3 ∷ []) window_five
        ≡ computed (
            first_given func (
              bind_names s.names (given_values given_ma_again (codes "data" ∷ []))
              ++ given_or_default given_ma_again ((codes "window", int (pos 20)) ∷ []))))
call_api-local_example =
    call_api-local first_given drawn_twice ma_method (object 3 ∷ []) window_five (Memᴰ.head refl)
      (unfold text_mem text_eq in refl)

abbrev only_indicators : Dict (Handler Called)
only_indicators = (codes "indicator", indicator_handler (built_in first_given)) ∷ []

indicator_spec-GivesNothing_example :
    ((c : Called) × (dispatch only_indicators false true
          (indicator_spec drawn_twice (codes "ma") (object 3 ∷ []) window_five)
          null
        ≡ handled c)
      × GivesNothing c)
    × ((c : Called) × (dispatch only_indicators false true
            (strip_inline (indicator_spec drawn_twice (codes "ma") (object 3 ∷ []) window_five))
            null
          ≡ handled c)
        × GivesNothing c)
indicator_spec-GivesNothing_example =
    indicator_spec-GivesNothing first_given only_indicators false true drawn_twice (codes "ma")
      (object 3) [] window_five null (unfold get text_eq in refl)
