-- ===== src/Protocol/Messages.antt =====
-- The types of messages, their planes and their paths
-- (packages/foundation/stockstat_foundation/protocol/messages.py).
pub mod Planes
use stock_statistic.Common.{Bool, Option, none, some, List, [], ◌∷◌, ◌++◌, map}
use stock_statistic.Common.Text.{Text, codes, text_mem}
use stock_statistic.Common.Dict.{Dict, get}

pub data MessageType : Type 0 where
  task_submit task_ack task_status task_status_reply : MessageType
  task_result task_result_reply task_cancel task_progress : MessageType
  task_error cluster_info cluster_info_reply dispatch_assign : MessageType
  dispatch_ack dispatch_complete dispatch_partial dispatch_fail : MessageType
  dispatch_heartbeat dispatch_register dispatch_unregister dispatch_drain : MessageType
  dispatch_preempt dispatch_resume dispatch_preempt_rejected data_fetch : MessageType
  data_stream data_ref cluster_discover cluster_discover_reply : MessageType

-- The text of each constant.
abbrev pub type_text : MessageType → Text
type_text task_submit = codes "task.submit"
type_text task_ack = codes "task.ack"
type_text task_status = codes "task.status"
type_text task_status_reply = codes "task.status.reply"
type_text task_result = codes "task.result"
type_text task_result_reply = codes "task.result.reply"
type_text task_cancel = codes "task.cancel"
type_text task_progress = codes "task.progress"
type_text task_error = codes "task.error"
type_text cluster_info = codes "cluster.info"
type_text cluster_info_reply = codes "cluster.info.reply"
type_text dispatch_assign = codes "dispatch.assign"
type_text dispatch_ack = codes "dispatch.ack"
type_text dispatch_complete = codes "dispatch.complete"
type_text dispatch_partial = codes "dispatch.partial"
type_text dispatch_fail = codes "dispatch.fail"
type_text dispatch_heartbeat = codes "dispatch.heartbeat"
type_text dispatch_register = codes "dispatch.register"
type_text dispatch_unregister = codes "dispatch.unregister"
type_text dispatch_drain = codes "dispatch.drain"
type_text dispatch_preempt = codes "dispatch.preempt"
type_text dispatch_resume = codes "dispatch.resume"
type_text dispatch_preempt_rejected = codes "dispatch.preempt_rejected"
type_text data_fetch = codes "data.fetch"
type_text data_stream = codes "data.stream"
type_text data_ref = codes "data.ref"
type_text cluster_discover = codes "cluster.discover"
type_text cluster_discover_reply = codes "cluster.discover.reply"

-- Between clients and the dispatcher.
abbrev pub control_types : List MessageType
control_types =
    task_submit ∷ task_ack ∷ task_status ∷ task_status_reply ∷ task_result ∷ task_result_reply
    ∷ task_cancel ∷ task_progress ∷ task_error ∷ cluster_info ∷ cluster_info_reply ∷ []

-- Between the dispatcher and the workers.
abbrev pub dispatch_types : List MessageType
dispatch_types =
    dispatch_assign ∷ dispatch_ack ∷ dispatch_complete ∷ dispatch_partial ∷ dispatch_fail
    ∷ dispatch_heartbeat ∷ dispatch_register ∷ dispatch_unregister ∷ dispatch_drain
    ∷ dispatch_preempt ∷ dispatch_resume ∷ dispatch_preempt_rejected ∷ []

abbrev pub data_types : List MessageType
data_types = data_fetch ∷ data_stream ∷ data_ref ∷ []

abbrev pub discovery_types : List MessageType
discovery_types = cluster_discover ∷ cluster_discover_reply ∷ []

abbrev pub all_types : List MessageType
all_types = control_types ++ dispatch_types ++ data_types ++ discovery_types

abbrev pub texts : List MessageType → List Text
texts ts = map type_text ts

-- `is_control`, `is_dispatch` and `is_data` of any text.
unfoldable pub is_control : Text → Bool
unfolding text_mem
is_control t = text_mem t (texts control_types)

unfoldable pub is_dispatch : Text → Bool
unfolding text_mem
is_dispatch t = text_mem t (texts dispatch_types)

unfoldable pub is_data : Text → Bool
unfolding text_mem
is_data t = text_mem t (texts data_types)

abbrev pub type_to_path : Dict Text
type_to_path =
    (type_text task_submit, codes "/dispatch/submit")
    ∷ (type_text task_status, codes "/dispatch/status")
    ∷ (type_text task_result, codes "/dispatch/result")
    ∷ (type_text task_cancel, codes "/dispatch/cancel")
    ∷ (type_text cluster_info, codes "/dispatch/cluster")
    ∷ (type_text dispatch_register, codes "/dispatch/register")
    ∷ (type_text dispatch_heartbeat, codes "/dispatch/heartbeat")
    ∷ (type_text dispatch_unregister, codes "/dispatch/unregister")
    ∷ (type_text dispatch_assign, codes "/dispatch/assign")
    ∷ (type_text dispatch_complete, codes "/dispatch/complete")
    ∷ (type_text dispatch_fail, codes "/dispatch/fail")
    ∷ (type_text dispatch_partial, codes "/dispatch/partial")
    ∷ (type_text dispatch_preempt, codes "/dispatch/preempt")
    ∷ (type_text dispatch_resume, codes "/dispatch/resume")
    ∷ (type_text dispatch_drain, codes "/dispatch/drain")
    ∷ (type_text cluster_discover, codes "/dispatch/discover")
    ∷ (type_text data_fetch, codes "/api/v1/ohlcv")
    ∷ []

-- `TYPE_TO_PATH.get(t)`
abbrev pub path_of : Text → Option Text
path_of t = get t type_to_path
