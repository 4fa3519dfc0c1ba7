-- ===== src/Tests/Registry.antt =====
-- The registry of workers and the history, on concrete workers.
use stock_statistic.Common.{◌≡◌, refl, true, false, some, none, List, [], ◌∷◌, arith}
use stock_statistic.Common.Text.{codes, text_eq}
use stock_statistic.Protocol.Value.{text, Fields, field, field_or, empty}
use stock_statistic.Dispatch.Workers.{
  WorkerRecord, WorkerRegistry, online, other, RegisterMessage, HeartbeatMessage,
}
use stock_statistic.Dispatch.Workers.Consistent.{
  Event, registered, beaten, incremented, decremented, checked, unregistered, AllConsistent, run,
  run-IsConsistent,
}
use stock_statistic.Dispatch.State.{HistoryEntry, history_entry}
use stock_statistic.Dispatch.Client.{new_entry}
use stock_statistic.Dispatch.Cluster.{sub_id_of}
use stock_statistic.Tests.Samples.{backtest, screening}

abbrev worker : WorkerRecord
worker = record {
  worker_id = codes "w1";
  alias = codes "w1";
  address = [];
  port = 0;
  concurrency = 2;
  hardware = empty;
  capabilities = codes "custom" ∷ [];
  stockstat_version = [];
  labels = [];
  preemptable = false;
  status = online;
  last_heartbeat = 5;
  active_tasks = 1;
  completed_tasks = 0;
  failed_tasks = 0;
  avg_task_duration_s = record { bits = 0 };
  registered_at = 5;
  last_load = empty;
}

abbrev registry : WorkerRegistry
registry = record {
  workers =
      (codes "w1", worker)
      ∷ (codes "w2", record worker { worker_id = codes "w2"; status = other (codes "draining") })
      ∷ [];
  offline_timeout = 60;
}

abbrev joining : RegisterMessage
joining = record {
  worker_id = some (codes "w3");
  alias = none;
  address = none;
  port = none;
  concurrency = none;
  hardware = none;
  capabilities = none;
  stockstat_version = none;
  labels = none;
  preemptable = none;
}

abbrev beating : HeartbeatMessage
beating = record {
  worker_id = some (codes "w1");
  load = none;
  active_tasks = some 2;
  completed_tasks = none;
  failed_tasks = none;
  avg_task_duration_s = none;
  status = none;
}

abbrev events : List Event
events =
    registered (codes "fresh") 6 joining
    ∷ incremented (codes "w1")
    ∷ beaten 7 beating
    ∷ decremented (codes "w1") true false
    ∷ unregistered (codes "w2")
    ∷ checked 100
    ∷ []

run-IsConsistent_example : AllConsistent (run events registry)
run-IsConsistent_example =
    run-IsConsistent events registry (omega arith, (tt, (tt, (tt, (tt, (tt, tt))))))
      (omega arith, (tt, tt))

abbrev entries : List HistoryEntry
entries = history_entry (new_entry 5 backtest []) ∷ history_entry (new_entry 6 screening []) ∷ []

abbrev joining_sub : Fields
joining_sub = field (codes "id") (text (codes "d2")) empty

named_by_id : sub_id_of joining_sub ≡ some (codes "d2")
unfolding sub_id_of field_or text_eq
named_by_id = refl
