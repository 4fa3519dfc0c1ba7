-- ===== src/Dispatch/Cluster.antt =====
-- ClusterManager (packages/dispatcher/stockstat_dispatcher/cluster.py): the sub-dispatchers of a
-- dispatcher. An identifier is a text.
use stock_statistic.Common.{◌≡◌, refl, ap, ◌∙◌, Option, none, some, List, [], ◌∷◌, if◌then◌else◌}
use mathlib.Core.Option
use stock_statistic.Common.Integer.{pos}
use stock_statistic.Common.Text.{Text, codes, text_eq}
use stock_statistic.Common.Dict.{Dict, get, put, modify, values, get-put_self, get-modify_self}
use stock_statistic.Protocol.Value.{Value, null, int, text, Fields, empty, field, field_or}
use stock_statistic.Dispatch.State.{Dispatcher}

-- An identifier that the message has, if it is not empty.
abbrev given_id : Value → Option Text
given_id (text (c ∷ t)) = some (c ∷ t)
given_id _ = none

-- `msg.get("sub_id") or msg.get("id")`
unfoldable pub sub_id_of : Fields → Option Text
unfolding field_or
sub_id_of msg = elim (given_id (field_or (codes "sub_id") null msg)) [
  | some i ↦ some i
  | none ↦ given_id (field_or (codes "id") null msg)
]

-- The entry of a sub-dispatcher with a status.
unfoldable pub sub_entry : Text → Fields → Text → Fields
unfolding field_or
sub_entry sub_id msg status = field (codes "id") (text sub_id) (
    field (codes "alias") (field_or (codes "alias") (text sub_id) msg) (
      field (codes "address") (field_or (codes "address") (text []) msg) (
        field (codes "parent_url") (field_or (codes "parent_url") null msg) (
          field (codes "status") (text status) (
            field (codes "worker_count") (field_or (codes "worker_count") (int (pos 0)) msg) (
              field (codes "total_concurrency")
                (field_or (codes "total_concurrency") (int (pos 0)) msg) empty))))))

abbrev pub set_subs : Dict Fields → Dispatcher → Dispatcher
set_subs subs d = record d { sub_dispatchers = subs }

-- The id that was registered; `none` is the answer that the id is missing.
unfoldable pub register_sub_dispatcher : Fields → Dispatcher → Option Text × Dispatcher
unfolding sub_id_of sub_entry
register_sub_dispatcher msg d = elim (sub_id_of msg) [
  | none ↦ (none, d)
  | some i ↦ (some i, set_subs (put i (sub_entry i msg (codes "online")) d.sub_dispatchers) d)
]

-- `d[k] = v` of a key that is there.
unfoldable pub set_field : Text → Value → Fields → Fields
set_field k v empty = field k v empty
set_field k v (field j w d) =
    let rest = set_field k v d in if text_eq j k then field j v d else field j w rest

unfoldable pub unregister_sub_dispatcher : Text → Dispatcher → Dispatcher
unfolding set_field
unregister_sub_dispatcher sub_id d =
    set_subs (modify sub_id (set_field (codes "status") (text (codes "offline"))) d.sub_dispatchers)
      d

unfoldable pub list_sub_dispatchers : Dispatcher → List Fields
list_sub_dispatchers d = values d.sub_dispatchers

set_field-sub_entry :
    (i : Text) (msg : Fields) (status : Text)
    → set_field (codes "status") (text (codes "offline")) (sub_entry i msg status)
      ≡ sub_entry i msg (codes "offline")
unfolding set_field sub_entry text_eq
set_field-sub_entry i msg status = refl

registered_entry :
    (msg : Fields) (i : Text) (d : Dispatcher)
    → sub_id_of msg ≡ some i
    → get i (register_sub_dispatcher msg d).1.sub_dispatchers
      ≡ some (sub_entry i msg (codes "online"))
unfolding register_sub_dispatcher
registered_entry msg i d h =
    rw (h, register_sub_dispatcher)
      (get-put_self i (sub_entry i msg (codes "online")) d.sub_dispatchers)

-- A sub-dispatcher that is registered and unregistered is still known, with all that its message
-- said of it and the status "offline".
pub unregister-register_sub_dispatcher :
    (msg : Fields) (i : Text) (d : Dispatcher)
    → sub_id_of msg ≡ some i
    → get i (unregister_sub_dispatcher i (register_sub_dispatcher msg d).1).sub_dispatchers
      ≡ some (sub_entry i msg (codes "offline"))
unfolding register_sub_dispatcher unregister_sub_dispatcher
unregister-register_sub_dispatcher msg i d h =
    get-modify_self i (set_field (codes "status") (text (codes "offline")))
      (register_sub_dispatcher msg d).1.sub_dispatchers
    ∙ ap (Option.map (set_field (codes "status") (text (codes "offline"))))
        (registered_entry msg i d h)
    ∙ ap some (set_field-sub_entry i msg (codes "online"))
