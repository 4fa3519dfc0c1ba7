-- ===== src/Compute/Remote.antt =====
-- RemoteComputeBackend (packages/compute/stockstat_compute/backend/remote.py). The dispatcher is
-- reached over HTTP: what its answers say is an argument. A call of `wait` sees a list of rounds,
-- each with the reading of the clock and the task's information, if the loop asks for it.
pub mod Wait
use stock_statistic.Common.{
  ℕ, zero, suc, ◌+◌, Bool, true, false, ◌&&◌, Option, none, some, List, [], ◌∷◌, ◌++◌, ltb,
  if◌then◌else◌,
}
use stock_statistic.Common.Text.{Text, codes}
use stock_statistic.Common.Dict.{Dict, get, put, erase}
use stock_statistic.Protocol.Value.{Value, null, text, Items, nil, cons, Fields, empty, field}
use stock_statistic.Protocol.Task.{TaskSpec, to_dict}
use stock_statistic.Protocol.Decode.{from_dict}
use stock_statistic.Dispatch.State.{
  Outside, TaskState, pending, running, completed, failed, cancelled, TaskInfo,
}
use stock_statistic.Dispatch.Assign.{inline_key, inline_b64_key}
use stock_statistic.Compute.Local.{Answer, ok, timed_out, task_failed, task_cancelled}

-- Values that go into JSON as they are.
abbrev is_plain : Value → Bool
is_plain (Value.object _) = false
is_plain _ = true

-- The specification that is posted: inline data that JSON does not take is encoded.
abbrev encoded_params : Outside → Option Value → Dict Value → Dict Value
encoded_params out none params = params
encoded_params out (some v) params =
    if is_plain v
    then params
    else erase inline_key (put inline_b64_key (text (out.b64encode (out.pickle v))) params)

unfoldable pub sent_spec : Outside → TaskSpec → TaskSpec
sent_spec out spec =
    let cs = spec.compute_spec in
    record spec {
      compute_spec = record cs { params = encoded_params out (get inline_key cs.params) cs.params };
    }

-- Whether JSON takes a value: an object is a TypeError, in lists and dictionaries too.
unfoldable mutual
  pub is_json : Value → Bool
  is_json (Value.object o) = false
  is_json (Value.list vs) = items_json vs
  is_json (Value.dict d) = fields_json d
  is_json _ = true

  pub items_json : Items → Bool
  items_json nil = true
  items_json (cons v vs) = is_json v && items_json vs

  pub fields_json : Fields → Bool
  fields_json empty = true
  fields_json (field k v d) = is_json v && fields_json d

-- The specification that the dispatcher reads from the post, `none` where JSON does not take its
-- dictionary or the dictionary is not read.
unfoldable pub posted : Outside → TaskSpec → Option TaskSpec
unfolding sent_spec fields_json
posted out spec =
    let d = to_dict out.runtime (sent_spec out spec) in
    if fields_json d then from_dict out.runtime d else none

-- `ack.get("task_id", spec.task_id)`
unfoldable pub ref_of : TaskSpec → (ack : Option Text) → Text
ref_of spec none = spec.task_id
ref_of spec (some t) = t

-- What a round of `wait` sees.
pub record Seen : Type 0 where
  pub now : ℕ
  pub info : TaskInfo

-- `timeout or 3600`
abbrev pub timeout_or : Option ℕ → ℕ
timeout_or none = 3600
timeout_or (some zero) = 3600
timeout_or (some (suc n)) = suc n

-- `info.error or "Task failed"`
abbrev pub failure_of : Option Text → Text
failure_of (some (c ∷ t)) = c ∷ t
failure_of _ = codes "Task failed"

-- A round whose clock is before the deadline: the answer, if the loop ends.
abbrev pub answer_of : (result : Answer Value) → TaskInfo → Option (Answer Value)
answer_of result info = elim info.state [
  | completed ↦ some result
  | failed ↦ some (task_failed (failure_of info.error))
  | cancelled ↦ some task_cancelled
  | s ↦ none
]

-- The loop of `wait`, `none` as long as it goes on; `result` is what `self.result` gives.
unfoldable pub wait_loop :
    (deadline : ℕ) (result : Answer Value) → List Seen → Option (Answer Value)
wait_loop deadline result [] = none
wait_loop deadline result (s ∷ ss) =
    let rest = wait_loop deadline result ss in
    if ltb s.now deadline
    then (elim (answer_of result s.info) [ none ↦ rest | some a ↦ some a ])
    else some timed_out

unfoldable pub wait :
    (start : ℕ) (timeout : Option ℕ) (result : Answer Value) → List Seen → Option (Answer Value)
unfolding wait_loop
wait start timeout result ss = wait_loop (start + timeout_or timeout) result ss

-- What `stream_results` yields over its polls, and whether it has ended.
unfoldable pub stream_results : (result : Value) → List TaskInfo → List Value × Bool
stream_results result [] = ([], false)
stream_results result (i ∷ is) =
    let rest = stream_results result is in
    elim i.state [
      | completed ↦ (result ∷ [], true)
      | failed ↦ ([], true)
      | cancelled ↦ ([], true)
      | s ↦ rest
    ]
