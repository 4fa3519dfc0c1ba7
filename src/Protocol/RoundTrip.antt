-- ===== src/Protocol/RoundTrip.antt =====
-- A task specification survives `to_dict` and `from_dict`
-- (packages/foundation/stockstat_foundation/protocol/task.py).
use stock_statistic.Common.{◌≡◌, refl, Option, none, some, List, [], ◌∷◌, arith}
use stock_statistic.Common.Text.{Text, text_eq}
use stock_statistic.Common.Dict.{Dict}
use stock_statistic.Protocol.Value.{
  Value, as_opt_text, as_opt_nat, of_texts, to_fields-of_fields, texts_of-of_texts, grid_of-of_grid,
}
use stock_statistic.Protocol.Task.{
  Runtime, DataSpec, DispatchSpec, ComputeSpec, TaskSpec, of_opt_text, of_opt_nat, of_opt_grid,
  of_opt_dict, of_fee_models, data_to_dict, dispatch_to_dict, compute_to_dict, to_dict,
}
use stock_statistic.Protocol.Decode.{
  as_fee_models, as_opt_dict, as_opt_grid, data_from_dict, dispatch_from_dict, compute_from_dict,
  from_dict,
}

-- An empty list of fee models is sent as no list.
abbrev pub sent_fees : Option (List Text) → Option (List Text)
sent_fees (some []) = none
sent_fees fs = fs

abbrev pub sent_compute : ComputeSpec → ComputeSpec
sent_compute s = record s { fee_models = sent_fees s.fee_models }

pub opt_text : (o : Option Text) → as_opt_text (of_opt_text o) ≡ some o
unfolding of_opt_text
opt_text none = refl
opt_text (some t) = refl

opt_nat : (o : Option _) → as_opt_nat (of_opt_nat o) ≡ some o
unfolding of_opt_nat
opt_nat none = refl
opt_nat (some n) = refl

opt_grid : (o : Option (Dict (List Value))) → as_opt_grid (of_opt_grid o) ≡ some o
unfolding of_opt_grid
opt_grid none = refl
opt_grid (some g) = rw grid_of-of_grid

opt_dict : (o : Option (Dict Value)) → as_opt_dict (of_opt_dict o) ≡ some o
unfolding of_opt_dict
opt_dict none = refl
opt_dict (some d) = rw to_fields-of_fields

fees : (o : Option (List Text)) → as_fee_models (of_fee_models o) ≡ some (sent_fees o)
unfolding of_fee_models of_texts
fees none = refl
fees (some []) = refl
fees (some (f ∷ fs)) = rw (texts_of-of_texts (f ∷ fs))

ruleset optional = (opt_text, opt_nat, opt_grid, opt_dict, fees)

data_round_trip : (s : DataSpec) → data_from_dict (data_to_dict s) ≡ some s
unfolding data_from_dict data_to_dict text_eq
data_round_trip s = simp (texts_of-of_texts, optional)

dispatch_round_trip : (s : DispatchSpec) → dispatch_from_dict (dispatch_to_dict s) ≡ some s
unfolding dispatch_from_dict dispatch_to_dict text_eq
dispatch_round_trip s = simp optional

compute_round_trip :
    (rt : Runtime) (s : ComputeSpec)
    → compute_from_dict rt (compute_to_dict s) ≡ some (sent_compute s)
unfolding compute_from_dict compute_to_dict text_eq
compute_round_trip rt s = simp (optional, to_fields-of_fields)

-- Where the text of a date reads back as the date, a specification that is sent as a dictionary
-- is received as it was, but for an empty list of fee models, which is received as no list.
pub from_dict-to_dict :
    (rt : Runtime) (s : TaskSpec)
    → rt.fromisoformat (rt.isoformat s.created_at) ≡ some s.created_at
    → from_dict rt (to_dict rt s) ≡ some (record s { compute_spec = sent_compute s.compute_spec })
unfolding from_dict to_dict text_eq
from_dict-to_dict rt s dates =
    simp (data_round_trip, compute_round_trip, dispatch_round_trip) (ground (arith, dates))
