-- ===== src/Protocol/Messages/Planes.antt =====
-- Each type of message belongs to one plane, and its text tells the type
-- (packages/foundation/stockstat_foundation/protocol/messages.py).
use stock_statistic.Common.{
  ◌≡◌, refl, Bool, true, false, Option, none, some, List, [], ◌∷◌, if◌then◌else◌,
}
use stock_statistic.Common.Text.{Text, text_eq, text_mem}
use stock_statistic.Protocol.Messages.{
  MessageType, type_text, all_types, is_control, is_dispatch, is_data, task_submit, task_ack,
  task_status, task_status_reply, task_result, task_result_reply, task_cancel, task_progress,
  task_error, cluster_info, cluster_info_reply, dispatch_assign, dispatch_ack, dispatch_complete,
  dispatch_partial, dispatch_fail, dispatch_heartbeat, dispatch_register, dispatch_unregister,
  dispatch_drain, dispatch_preempt, dispatch_resume, dispatch_preempt_rejected, data_fetch,
  data_stream, data_ref, cluster_discover, cluster_discover_reply,
}

pub data Plane : Type 0 where
  control_plane dispatch_plane data_plane discovery_plane : Plane

-- The plane that the comments of the constants name.
abbrev pub plane_of : MessageType → Plane
plane_of task_submit = control_plane
plane_of task_ack = control_plane
plane_of task_status = control_plane
plane_of task_status_reply = control_plane
plane_of task_result = control_plane
plane_of task_result_reply = control_plane
plane_of task_cancel = control_plane
plane_of task_progress = control_plane
plane_of task_error = control_plane
plane_of cluster_info = control_plane
plane_of cluster_info_reply = control_plane
plane_of dispatch_assign = dispatch_plane
plane_of dispatch_ack = dispatch_plane
plane_of dispatch_complete = dispatch_plane
plane_of dispatch_partial = dispatch_plane
plane_of dispatch_fail = dispatch_plane
plane_of dispatch_heartbeat = dispatch_plane
plane_of dispatch_register = dispatch_plane
plane_of dispatch_unregister = dispatch_plane
plane_of dispatch_drain = dispatch_plane
plane_of dispatch_preempt = dispatch_plane
plane_of dispatch_resume = dispatch_plane
plane_of dispatch_preempt_rejected = dispatch_plane
plane_of data_fetch = data_plane
plane_of data_stream = data_plane
plane_of data_ref = data_plane
plane_of cluster_discover = discovery_plane
plane_of cluster_discover_reply = discovery_plane

abbrev is_plane : Plane → Plane → Bool
is_plane control_plane control_plane = true
is_plane dispatch_plane dispatch_plane = true
is_plane data_plane data_plane = true
is_plane discovery_plane discovery_plane = true
is_plane _ _ = false

-- The type that has a text.
unfoldable pub type_of : List MessageType → Text → Option MessageType
type_of [] t = none
type_of (m ∷ ms) t = let rest = type_of ms t in if text_eq (type_text m) t then some m else rest

-- What the functions of the module say of a type.
pub record IsClassified (m : MessageType) : Type 0 where
  pub known : type_of all_types (type_text m) ≡ some m
  pub control : is_control (type_text m) ≡ is_plane (plane_of m) control_plane
  pub dispatch : is_dispatch (type_text m) ≡ is_plane (plane_of m) dispatch_plane
  pub carrying : is_data (type_text m) ≡ is_plane (plane_of m) data_plane

-- Every type is among all types, where its text finds it, and the tests of its text hold of its
-- plane and of no other.
pub type_text-IsClassified : (m : MessageType) → IsClassified m
unfolding is_control is_dispatch is_data type_of text_eq text_mem
type_text-IsClassified task_submit = record {
  known = refl;
  control = refl;
  dispatch = refl;
  carrying = refl;
}
type_text-IsClassified task_ack = record {
  known = refl;
  control = refl;
  dispatch = refl;
  carrying = refl;
}
type_text-IsClassified task_status = record {
  known = refl;
  control = refl;
  dispatch = refl;
  carrying = refl;
}
type_text-IsClassified task_status_reply = record {
  known = refl;
  control = refl;
  dispatch = refl;
  carrying = refl;
}
type_text-IsClassified task_result = record {
  known = refl;
  control = refl;
  dispatch = refl;
  carrying = refl;
}
type_text-IsClassified task_result_reply = record {
  known = refl;
  control = refl;
  dispatch = refl;
  carrying = refl;
}
type_text-IsClassified task_cancel = record {
  known = refl;
  control = refl;
  dispatch = refl;
  carrying = refl;
}
type_text-IsClassified task_progress = record {
  known = refl;
  control = refl;
  dispatch = refl;
  carrying = refl;
}
type_text-IsClassified task_error = record {
  known = refl;
  control = refl;
  dispatch = refl;
  carrying = refl;
}
type_text-IsClassified cluster_info = record {
  known = refl;
  control = refl;
  dispatch = refl;
  carrying = refl;
}
type_text-IsClassified cluster_info_reply = record {
  known = refl;
  control = refl;
  dispatch = refl;
  carrying = refl;
}
type_text-IsClassified dispatch_assign = record {
  known = refl;
  control = refl;
  dispatch = refl;
  carrying = refl;
}
type_text-IsClassified dispatch_ack = record {
  known = refl;
  control = refl;
  dispatch = refl;
  carrying = refl;
}
type_text-IsClassified dispatch_complete = record {
  known = refl;
  control = refl;
  dispatch = refl;
  carrying = refl;
}
type_text-IsClassified dispatch_partial = record {
  known = refl;
  control = refl;
  dispatch = refl;
  carrying = refl;
}
type_text-IsClassified dispatch_fail = record {
  known = refl;
  control = refl;
  dispatch = refl;
  carrying = refl;
}
type_text-IsClassified dispatch_heartbeat = record {
  known = refl;
  control = refl;
  dispatch = refl;
  carrying = refl;
}
type_text-IsClassified dispatch_register = record {
  known = refl;
  control = refl;
  dispatch = refl;
  carrying = refl;
}
type_text-IsClassified dispatch_unregister = record {
  known = refl;
  control = refl;
  dispatch = refl;
  carrying = refl;
}
type_text-IsClassified dispatch_drain = record {
  known = refl;
  control = refl;
  dispatch = refl;
  carrying = refl;
}
type_text-IsClassified dispatch_preempt = record {
  known = refl;
  control = refl;
  dispatch = refl;
  carrying = refl;
}
type_text-IsClassified dispatch_resume = record {
  known = refl;
  control = refl;
  dispatch = refl;
  carrying = refl;
}
type_text-IsClassified dispatch_preempt_rejected = record {
  known = refl;
  control = refl;
  dispatch = refl;
  carrying = refl;
}
type_text-IsClassified data_fetch = record {
  known = refl;
  control = refl;
  dispatch = refl;
  carrying = refl;
}
type_text-IsClassified data_stream = record {
  known = refl;
  control = refl;
  dispatch = refl;
  carrying = refl;
}
type_text-IsClassified data_ref = record {
  known = refl;
  control = refl;
  dispatch = refl;
  carrying = refl;
}
type_text-IsClassified cluster_discover = record {
  known = refl;
  control = refl;
  dispatch = refl;
  carrying = refl;
}
type_text-IsClassified cluster_discover_reply = record {
  known = refl;
  control = refl;
  dispatch = refl;
  carrying = refl;
}
