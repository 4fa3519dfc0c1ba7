-- ===== src/Tests/RedisServer.antt =====
-- A server that behaves as documented, and calls of the Redis queue over it.
use stock_statistic.Common.{Option, none, some, List, [], ◌∷◌, if◌then◌else◌}
use stock_statistic.Common.Lists.{length}
use stock_statistic.Common.Text.{Text, text_eq}
use stock_statistic.Protocol.Value.{Fields}
use stock_statistic.Dispatch.Redis.{Server, Coder}
use stock_statistic.Dispatch.Redis.Refines.{Lanes, Call, enqueued, dequeued}
use stock_statistic.Tests.Samples.{sample_runtime, backtest, screening}

-- A list for each key.
abbrev Lists : Type 0
Lists = Text → List Fields

unfoldable last_entry : List Fields → Option Fields
last_entry [] = none
last_entry (b ∷ []) = some b
last_entry (b ∷ c ∷ bs) = last_entry (c ∷ bs)

unfoldable but_last : List Fields → List Fields
but_last [] = []
but_last (b ∷ []) = []
but_last (b ∷ c ∷ bs) = b ∷ but_last (c ∷ bs)

abbrev written : Text → List Fields → Lists → Lists
written k bs s = λ j. if text_eq k j then bs else s j

unfoldable popped : Text → List Fields → Lists → Option Fields × Lists
popped k [] s = (none, s)
popped k (b ∷ bs) s = (last_entry (b ∷ bs), written k (but_last (b ∷ bs)) s)

abbrev server : Server Lists Fields
server = record {
  lpush = λ k b s. written k (b ∷ s k) s;
  rpop = λ k s. popped k (s k) s;
  llen = λ k s. length (s k);
  delete = λ k s. written k [] s;
}

abbrev contents : Text → Lists → List Fields
contents k s = s k

abbrev coder : Coder Fields
coder = record { runtime = sample_runtime; dumps = λ d. d; loads = λ d. some d }

abbrev empty_server : Lists
empty_server _ = []

abbrev no_task : Lanes
no_task = record { highs = []; normals = []; lows = [] }

abbrev calls : List Call
calls = enqueued backtest ∷ enqueued screening ∷ dequeued ∷ dequeued ∷ dequeued ∷ []
