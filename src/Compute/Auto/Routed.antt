-- ===== src/Compute/Auto/Routed.antt =====
-- Calls about a task reach the backend that it was submitted to
-- (packages/compute/stockstat_compute/backend/auto.py).
use stock_statistic.Common.{ℕ, ◌≡◌, ◌≢◌, refl, ◌∙◌, some, List, [], ◌∷◌, Bool-cases, inl, inr}
use stock_statistic.Common.Lists.{All}
use stock_statistic.Common.Text.{Text, codes, text_eq, text_eq_iff, text_eq_refl}
use stock_statistic.Common.Dict.{get, get-put_self, get-put_ne}
use stock_statistic.Protocol.Value.{Value}
use stock_statistic.Protocol.Task.{TaskSpec}
use stock_statistic.Compute.Auto.{
  AutoBackend, Side, local, remote, choose, name_of, submit, side_of, route,
}

unfoldable pub submit_all : (Value → ℕ) → List TaskSpec → AutoBackend → AutoBackend
submit_all memory [] b = b
submit_all memory (s ∷ ss) b = submit_all memory ss (submit memory s b).1

-- Other tasks than the one of this id.
abbrev pub Others : Text → List TaskSpec → Type 0
Others task_id ss = All (λ (s : TaskSpec). s.task_id ≢ task_id) ss

module _ (memory : Value → ℕ) where
  routing-submit_all :
      (task_id : Text) (ss : List TaskSpec) (b : AutoBackend)
      → Others task_id ss
      → get task_id (submit_all memory ss b).routing ≡ get task_id b.routing
  unfolding submit_all submit
  routing-submit_all task_id [] b h = refl
  routing-submit_all task_id (s ∷ ss) b h =
      routing-submit_all task_id ss (submit memory s b).1 h.1
      ∙ get-put_ne s.task_id task_id _ b.routing h.0

route_noted :
    (task_id name : Text) (b : AutoBackend)
    → get task_id b.routing ≡ some name
    → route task_id b ≡ side_of name
unfolding route text_eq
route_noted task_id name b h = rw (h, route) refl

side_of-name_of :
    (b : AutoBackend) (side : Side)
    → b.local_name ≡ codes "local"
    → b.remote_name ≢ codes "local"
    → side_of (name_of b side) ≡ side
side_of-name_of b local l r = rw l (rw (text_eq_refl (codes "local")) refl)
side_of-name_of b remote l r = elim (Bool-cases (text_eq b.remote_name (codes "local"))) [
  | inl same ↦ absurd (r ((text_eq_iff b.remote_name (codes "local")).0 same))
  | inr other ↦ rw other refl
]

-- Where the local backend is named "local" and the remote one is not, calls about a task reach the
-- backend that `submit` chose for it, whatever other tasks are submitted afterwards.
pub route-submit :
    (memory : Value → ℕ) (spec : TaskSpec) (later : List TaskSpec) (b : AutoBackend)
    → b.local_name ≡ codes "local"
    → b.remote_name ≢ codes "local"
    → Others spec.task_id later
    → route spec.task_id (submit_all memory later (submit memory spec b).1) ≡ choose memory b spec
unfolding submit
route-submit memory spec later b l r others =
    let noted = routing-submit_all memory spec.task_id later (submit memory spec b).1 others in
    let name = name_of b (choose memory b spec) in
    route_noted spec.task_id name (submit_all memory later (submit memory spec b).1)
      (noted ∙ get-put_self spec.task_id name b.routing)
    ∙ side_of-name_of b (choose memory b spec) l r
