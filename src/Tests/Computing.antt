-- ===== src/Tests/Computing.antt =====
-- Envelopes, errors, local tasks, routing and checkpoints, on concrete inputs.
use stock_statistic.Common.{
  ℕ, ◌≡◌, ◌≢◌, refl, false, Option, none, some, List, [], ◌∷◌, arith, if◌then◌else◌,
}
use stock_statistic.Common.Text.{Text, codes, text_eq}
use stock_statistic.Protocol.Value.{Value, object, Fields, empty, null}
use stock_statistic.Protocol.Envelope.{
  plain, raw, Envelope, Encodings, default_headers, wire, encode, decode, reply,
}
use stock_statistic.Protocol.Envelope.Sent.{Reads, decode-encode}
use stock_statistic.Protocol.Errors.{
  app_error, task_timeout, make, error_to_dict, error_from_dict, error_from_dict-to_dict,
}
use stock_statistic.Compute.Local.{LocalTask, new_task, begin, returned, conclude, cancel_task}
use stock_statistic.Compute.Local.Threads.{
  ended, began, concluded, stopped, Reached, here, next, Expected, Reached-Expected,
}
use stock_statistic.Compute.Auto.{AutoBackend, choose, submit, route}
use stock_statistic.Compute.Auto.Routed.{submit_all, route-submit}
use stock_statistic.Compute.Checkpoint.{
  CheckpointStore, saved, deleted, load, run, last_saved, load-run,
}
use stock_statistic.Tests.Samples.{backtest, screening}

abbrev question : Envelope
question = record {
  protocol = codes "stockstat-rpc";
  version = codes "1.0";
  type = codes "task.submit";
  id = codes "q1";
  reply_to = none;
  headers = default_headers;
  payload = raw (1 ∷ 2 ∷ []);
}

abbrev answer_type : Text
answer_type = codes "task.ack"

-- JSON and msgpack that know one dictionary, and tell their bytes apart by the first.
abbrev read_after : ℕ → Fields → List ℕ → Option Fields
read_after n d [] = none
read_after n d (m ∷ _) = if text_eq (m ∷ []) (n ∷ []) then some d else none

abbrev knowing : Fields → Encodings
knowing d = record {
  b64encode = λ b. b;
  b64decode = λ t. t;
  json_dumps = λ _. 123 ∷ [];
  json_loads = read_after 123 d;
  msgpack_dumps = λ _. 135 ∷ [];
  msgpack_loads = read_after 135 d;
}

abbrev plain_wire : Encodings
plain_wire = knowing empty

abbrev question_wire : Encodings
question_wire = knowing (wire plain_wire question)

question-Reads : Reads question_wire question
unfolding text_eq wire
question-Reads = record { base64 = λ b. refl; json = refl; not_json = refl; msgpack = refl }

decode-encode_example :
    decode question_wire (codes "fresh") (encode question_wire question) ≡ some question
decode-encode_example =
    decode-encode question_wire (codes "fresh") question question-Reads (ground arith)

abbrev acknowledged : Envelope
acknowledged = reply (codes "a1") answer_type (plain null) (codes "application/json") question

abbrev answer_wire : Encodings
answer_wire = knowing (wire plain_wire acknowledged)

answer-Reads : Reads answer_wire acknowledged
unfolding text_eq wire reply
answer-Reads = record { base64 = λ b. refl; json = refl; not_json = refl; msgpack = refl }

error_from_dict-to_dict_example :
    error_from_dict app_error (error_to_dict (make task_timeout [] none empty (some false)))
    ≡ some (make task_timeout [] none empty (some false))
error_from_dict-to_dict_example =
    error_from_dict-to_dict app_error task_timeout [] empty (some false)

-- Cancelled before its thread began, and completed all the same.
abbrev late_result : LocalTask
late_result = conclude 9 (returned (object 3)) (begin 8 (cancel_task 7 (new_task 6 backtest)).1).1

late_result-Reached : Reached 6 backtest (ended (returned (object 3))) late_result
late_result-Reached =
    next (next (next here (stopped 7)) (began 8)) (concluded 9 (returned (object 3)))

Reached-Expected_example : Expected (ended (returned (object 3))) late_result
Reached-Expected_example = Reached-Expected 6 backtest late_result-Reached

abbrev memory : Value → ℕ
memory _ = 56

abbrev auto : AutoBackend
auto = record {
  local_name = codes "local";
  remote_name = codes "remote";
  threshold = 1048576;
  routing = [];
}

remote_named : auto.remote_name ≢ codes "local"
remote_named = ground arith

other_task : screening.task_id ≢ backtest.task_id
other_task = ground arith

route-submit_example :
    route backtest.task_id (submit_all memory (screening ∷ []) (submit memory backtest auto).1)
    ≡ choose memory auto backtest
route-submit_example =
    route-submit memory backtest (screening ∷ []) auto refl remote_named (other_task, tt)

abbrev store : CheckpointStore
store = record { store = [] }

load-run_example :
    load (codes "s0") (run (saved (codes "s0") (1 ∷ []) ∷ deleted (codes "s1") ∷ []) store)
    ≡ last_saved
        (codes "s0")
        (saved (codes "s0") (1 ∷ []) ∷ deleted (codes "s1") ∷ [])
        (load (codes "s0") store)
load-run_example =
    load-run (codes "s0") (saved (codes "s0") (1 ∷ []) ∷ deleted (codes "s1") ∷ []) store
