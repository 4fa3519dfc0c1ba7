-- ===== src/Invocation/Client/Arrives.antt =====
-- What becomes of a client's specification
-- (packages/invocation/stockstat/client.py, packages/compute/stockstat_compute/backend/remote.py and
-- packages/dispatcher/stockstat_dispatcher).
use stock_statistic.Common.{
  ◌≡◌, refl, sym, ap, ◌∙◌, Bool, true, Option, none, some, List, [], ◌∷◌, map,
}
use stock_statistic.Common.Text.{Text, text_eq}
use stock_statistic.Common.Dict.{Dict, get, put, erase}
use stock_statistic.Protocol.Value.{Value, object, Object, of_texts, of_grid, of_fields}
use stock_statistic.Protocol.Task.{
  Runtime, DataSpec, DispatchSpec, ComputeSpec, TaskSpec, of_opt_text, of_opt_nat, of_opt_grid,
  of_opt_dict, of_fee_models, data_to_dict, dispatch_to_dict, compute_to_dict, to_dict,
}
use stock_statistic.Protocol.RoundTrip.{sent_compute, from_dict-to_dict}
use mathlib.Core.Path.{subst}
use stock_statistic.Dispatch.Cache.{Bytes}
use stock_statistic.Dispatch.State.{Outside}
use stock_statistic.Dispatch.Shard.{shard_task}
use stock_statistic.Dispatch.Assign.{inline_data}
use stock_statistic.Compute.Remote.{sent_spec, is_json, items_json, fields_json, posted}
use stock_statistic.Invocation.Client.{
  pickled_item, Fresh, Options, build_backtest_task_spec, grid_search_spec, batch_backtest_spec,
}

-- The calls of the client that carry a frame, an object that only cloudpickle encodes.
pub data FrameCall : Type 0 where
  backtest : (dumped : Text) → Options → FrameCall
  grid_search :
      (class_name : Option Text) (dumped : Text)
      → Dict (List Value)
      → (metric : Text) → Bool
      → Options
      → FrameCall
  batch_backtest : Dict Text → Option (List Text) → Options → FrameCall

unfoldable pub spec_of_call : Fresh → Object → FrameCall → TaskSpec
unfolding build_backtest_task_spec grid_search_spec batch_backtest_spec
spec_of_call f frame (backtest dumped o) = build_backtest_task_spec f (some (object frame)) dumped o
spec_of_call f frame (grid_search class_name dumped grid metric maximize o) =
    grid_search_spec f (object frame) class_name dumped grid metric maximize o
spec_of_call f frame (batch_backtest dumped fees o) =
    batch_backtest_spec f (object frame) dumped fees o

-- JSON takes the values of a grid.
unfoldable pub is_json_call : FrameCall → Bool
unfolding fields_json of_grid
is_json_call (grid_search class_name dumped grid metric maximize o) = fields_json (of_grid grid)
is_json_call _ = true

is_json-opt_text : (o : Option Text) → is_json (of_opt_text o) ≡ true
unfolding is_json of_opt_text
is_json-opt_text none = refl
is_json-opt_text (some t) = refl

is_json-opt_nat : (o : Option _) → is_json (of_opt_nat o) ≡ true
unfolding is_json of_opt_nat
is_json-opt_nat none = refl
is_json-opt_nat (some n) = refl

items_json-of_texts : (ts : List Text) → items_json (of_texts ts) ≡ true
unfolding items_json of_texts is_json
items_json-of_texts [] = refl
items_json-of_texts (t ∷ ts) = items_json-of_texts ts

is_json-fee_models : (o : Option (List Text)) → is_json (of_fee_models o) ≡ true
unfolding is_json of_fee_models
is_json-fee_models none = refl
is_json-fee_models (some []) = refl
is_json-fee_models (some (f ∷ fs)) = items_json-of_texts (f ∷ fs)

ruleset plain_values = (is_json-opt_text, is_json-opt_nat, items_json-of_texts, is_json-fee_models)

data_json : (s : DataSpec) → fields_json (data_to_dict s) ≡ true
unfolding fields_json is_json data_to_dict
data_json s = simp plain_values

dispatch_json : (s : DispatchSpec) → fields_json (dispatch_to_dict s) ≡ true
unfolding fields_json is_json dispatch_to_dict
dispatch_json s = simp plain_values

compute_json :
    (s : ComputeSpec)
    → fields_json (of_fields s.params) ≡ true
    → is_json (of_opt_grid s.param_grid) ≡ true
    → is_json (of_opt_dict s.strategies) ≡ true
    → fields_json (compute_to_dict s) ≡ true
unfolding fields_json is_json compute_to_dict
compute_json s params grid strategies = simp (plain_values, params, grid, strategies)

spec_json :
    (rt : Runtime) (s : TaskSpec)
    → fields_json (of_fields s.compute_spec.params) ≡ true
    → is_json (of_opt_grid s.compute_spec.param_grid) ≡ true
    → is_json (of_opt_dict s.compute_spec.strategies) ≡ true
    → fields_json (to_dict rt s) ≡ true
unfolding fields_json is_json to_dict
spec_json rt s params grid strategies =
    simp (data_json, dispatch_json, compute_json s.compute_spec params grid strategies)

fields_json-pickled :
    (dumped : Dict Text) → fields_json (of_fields (map pickled_item dumped)) ≡ true
unfolding fields_json is_json of_fields
fields_json-pickled [] = refl
fields_json-pickled ((name, t) ∷ dumped) = fields_json-pickled dumped

-- The dispatcher reads the specification; but for its parameters it is as the client built it; it is
-- not divided, and the dispatcher has the frame.
pub record Arrived (out : Outside) (frame : Object) (spec : TaskSpec) : Type 0 where
  pub received : TaskSpec
  pub arrives : posted out spec ≡ some received
  pub kept :
      (record received {
        compute_spec = record received.compute_spec { params = spec.compute_spec.params };
      })
      ≡ spec
  pub whole : shard_task out.set_order received ≡ received ∷ []
  pub has_frame : inline_data out received ≡ some (object frame)

module _ (out : Outside) (f : Fresh) (frame : Object)
    (dates : out.runtime.fromisoformat (out.runtime.isoformat f.now) ≡ some f.now) where
  -- What is read of a specification that JSON takes.
  posted_json :
      (spec : TaskSpec)
      → spec.created_at ≡ f.now
      → fields_json (of_fields (sent_spec out spec).compute_spec.params) ≡ true
      → is_json (of_opt_grid spec.compute_spec.param_grid) ≡ true
      → is_json (of_opt_dict spec.compute_spec.strategies) ≡ true
      → posted out spec
        ≡ some (record (sent_spec out spec) {
          compute_spec = sent_compute (sent_spec out spec).compute_spec;
        })
  unfolding posted sent_spec
  posted_json spec e params grid strategies =
      rw (spec_json out.runtime (sent_spec out spec) params grid strategies) (
        from_dict-to_dict out.runtime (sent_spec out spec)
          (subst (λ t. out.runtime.fromisoformat (out.runtime.isoformat t) ≡ some t) (sym e) dates))

kept_batch :
    (f : Fresh) (frame : Object) (dumped : Dict Text) (fees : Option (List Text)) (o : Options)
    → let spec = batch_backtest_spec f (object frame) dumped fees o in
      (record spec { compute_spec = sent_compute spec.compute_spec }) ≡ spec
unfolding batch_backtest_spec
kept_batch f frame dumped none o = refl
kept_batch f frame dumped (some []) o = refl
kept_batch f frame dumped (some (t ∷ ts)) o = refl

-- Where dates read back, base64 and cloudpickle read what they wrote, and JSON takes the values of
-- the grid: a backtest, a grid search or a batch of backtests that a client posts through the remote
-- backend, with a frame that JSON would refuse, is read by the dispatcher; it has the frame, all else
-- but the parameters is as the client built it, and the dispatcher does not divide it, however large
-- the grid or the batch is.
pub sent_spec-Arrived :
    (out : Outside) (f : Fresh) (frame : Object) (call : FrameCall)
    → out.runtime.fromisoformat (out.runtime.isoformat f.now) ≡ some f.now
    → ((b : Bytes) → out.b64decode (out.b64encode b) ≡ b)
    → out.is_readable (out.b64encode (out.pickle (object frame))) ≡ true
    → out.unpickle (out.pickle (object frame)) ≡ object frame
    → is_json_call call ≡ true
    → Arrived out frame (spec_of_call f frame call)
unfolding sent_spec shard_task spec_of_call inline_data text_eq get put erase fields_json is_json
    of_fields of_opt_grid of_opt_dict is_json_call
sent_spec-Arrived out f frame (backtest dumped o) dates b64 reads pickles takes = record {
  received = _;
  arrives = posted_json out f frame dates _ refl refl refl refl;
  kept = refl;
  whole = refl;
  has_frame = rw reads (ap some (ap out.unpickle (b64 _) ∙ pickles));
}
sent_spec-Arrived out f frame (grid_search none dumped grid metric maximize o) dates b64 reads
      pickles takes =
    record {
      received = _;
      arrives = posted_json out f frame dates _ refl refl takes refl;
      kept = refl;
      whole = refl;
      has_frame = rw reads (ap some (ap out.unpickle (b64 _) ∙ pickles));
    }
sent_spec-Arrived out f frame (grid_search (some c) dumped grid metric maximize o) dates b64 reads
      pickles takes =
    record {
      received = _;
      arrives = posted_json out f frame dates _ refl refl takes refl;
      kept = refl;
      whole = refl;
      has_frame = rw reads (ap some (ap out.unpickle (b64 _) ∙ pickles));
    }
sent_spec-Arrived out f frame (batch_backtest dumped fees o) dates b64 reads pickles takes =
    record {
      received = _;
      arrives = posted_json out f frame dates _ refl refl refl (fields_json-pickled dumped);
      kept = kept_batch f frame dumped fees o;
      whole = refl;
      has_frame = rw reads (ap some (ap out.unpickle (b64 _) ∙ pickles));
    }
