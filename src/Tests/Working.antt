-- ===== src/Tests/Working.antt =====
-- A worker alone, and one that serves the dispatcher.
use stock_statistic.Common.{◌≡◌, refl, true, false, none, some, [], ◌∷◌, arith}
use stock_statistic.Common.Text.{Text, codes, text_mem, text_eq, starts_with}
use stock_statistic.Common.Dict.{get}
use stock_statistic.Protocol.Value.{Fields, Value, null, bool}
use stock_statistic.Protocol.Task.{TaskSpec, default_dispatch_spec}
use stock_statistic.Dispatch.SliceId.{parent_id}
use stock_statistic.Dispatch.Cache.{Bytes}
use stock_statistic.Dispatch.Client.{submit, get_result, ok}
use stock_statistic.Dispatch.Shard.{shard_task}
use stock_statistic.Dispatch.Run.{new_dispatcher}
use stock_statistic.Compute.Local.{Outcome, returned}
use stock_statistic.Compute.Worker.{Worker, poll, goes_on}
use stock_statistic.Compute.Worker.Steps.{
  State, at_rest, handed, Reached, here, next, IsBounded, Reached-IsBounded,
}
use stock_statistic.Compute.Worker.Stuck.{late, late-ne-poll}
use stock_statistic.Dispatch.Assign.{data_for, inline_data, fetch_from_storage}
use stock_statistic.Dispatch.Assign.Prefetch.{IsReadable}
use stock_statistic.Common.Lists.{All}
use stock_statistic.Service.{rounds}
use stock_statistic.Service.Finishes.{rounds-submit}
use stock_statistic.Tests.Samples.{sample_outside, screening, start}

abbrev helper : Worker
helper = record {
  concurrency = 1;
  alias = codes "helper";
  labels = [];
  capabilities = codes "custom" ∷ [];
  preemptable = false;
  active_futures = [];
  stopping = false;
  draining = false;
  preempted = [];
  worker_id = some (codes "w1");
  completed_count = 0;
  failed_count = 0;
  registered = true;
}

Reached-IsBounded_example :
    IsBounded (record { worker = helper; pool = codes "a" ∷ []; storing = some (codes "a") })
unfolding poll goes_on
Reached-IsBounded_example =
    Reached-IsBounded sample_outside helper
      (record { worker = helper; pool = codes "a" ∷ []; storing = some (codes "a") }) refl
      (next here (handed (codes "a") refl refl refl))

late-ne-poll_example :
    Reached sample_outside
      (at_rest helper)
      (at_rest (late sample_outside (codes "a") (returned null) none false helper))
    × ((t : State)
        → Reached sample_outside
            (at_rest (late sample_outside (codes "a") (returned null) none false helper))
            t
        → poll t.worker ≡ none)
unfolding poll goes_on get
late-ne-poll_example =
    late-ne-poll sample_outside helper (codes "a") (codes "w1", codes "custom" ∷ []) (returned null)
      none false refl refl refl refl

-- A screening that is divided by symbol.
abbrev divided : TaskSpec
divided = record screening {
  dispatch_spec = record default_dispatch_spec { split_strategy = codes "symbol_wise" };
}

abbrev no_reason : Fields → Text
no_reason d = []

abbrev always : TaskSpec → Value → Outcome
always spec v = returned (bool true)

data_of_slices : All (IsReadable sample_outside) (shard_task sample_outside.set_order divided)
unfolding shard_task data_for inline_data fetch_from_storage get text_eq
data_of_slices = ((_, refl), ((_, refl), tt))

rounds-submit_example :
    (bytes : Bytes) × (get_result
        (codes "screen")
        (rounds sample_outside no_reason always
          (11 ∷ 12 ∷ [])
          helper
          (submit sample_outside 10 divided start).1).1
      ≡ ok bytes)
unfolding submit shard_task parent_id new_dispatcher text_mem text_eq starts_with
rounds-submit_example =
    rounds-submit sample_outside no_reason always 10 divided start (codes "w1") helper
      (11 ∷ 12 ∷ []) (λ t. refl) (λ s v. (bool true, refl))
      (record { named = refl; free = refl; place = omega arith; any = refl }) refl (omega arith)
      refl data_of_slices (omega arith) refl
