-- ===== src/Tests/Cached.antt =====
-- The cache, its keys and the dictionaries that are sent, on concrete data.

use stock_statistic.Common.{◌+◌, ◌≤◌, ◌≡◌, ◌⊎◌, refl, some, List, [], ◌∷◌}
use stock_statistic.Common.Lists.{length}
use stock_statistic.Common.Unique.{IsMap}
use stock_statistic.Common.Text.{Text, codes, text_eq}
use stock_statistic.Common.Dict.{get}
use stock_statistic.Protocol.Task.{to_dict}
use stock_statistic.Protocol.Decode.{from_dict}
use stock_statistic.Protocol.RoundTrip.{sent_compute, from_dict-to_dict}
use stock_statistic.Dispatch.Cache.{Bytes, DataCache, put_bytes}
use stock_statistic.Dispatch.Cache.Accounted.{IsAccounted, sizes}
use stock_statistic.Dispatch.Cache.Put.{evicted, overwritten, put_bytes_account}
use stock_statistic.Tests.Samples.{backtest, sample_runtime}

abbrev six_bytes : Bytes
six_bytes = 1 ∷ 2 ∷ 3 ∷ 4 ∷ 5 ∷ 6 ∷ []

abbrev cache : DataCache
cache = record {
  max_size_bytes = 8;
  entries =
      (codes "old", record { bytes = 1 ∷ 2 ∷ []; size = 2; last_access = 3 })
      ∷ (codes "new", record { bytes = 1 ∷ 2 ∷ 3 ∷ []; size = 3; last_access = 4 })
      ∷ [];
  total_size = 5;
  hits = 0;
  misses = 0;
}

cache-IsAccounted : IsAccounted cache
unfolding text_eq get
cache-IsAccounted = record { unique = (refl, (refl, tt)); total = refl }

put_bytes_account_example :
    (((put_bytes 9 (codes "more") six_bytes cache).1.total_size ≤ 8)
      ⊎ (length (put_bytes 9 (codes "more") six_bytes cache).1.entries ≡ 1))
    × ((put_bytes 9 (codes "more") six_bytes cache).1.total_size
        ≡ sizes (put_bytes 9 (codes "more") six_bytes cache).1.entries
          + overwritten (get (codes "more") (evicted 6 cache).entries))
    × IsMap (put_bytes 9 (codes "more") six_bytes cache).1.entries
put_bytes_account_example = put_bytes_account 9 (codes "more") six_bytes cache cache-IsAccounted

abbrev decode : Text → Bytes
decode t = t

abbrev swapped : List Text
swapped = codes "MSFT" ∷ codes "AAPL" ∷ []

from_dict-to_dict_example :
    from_dict sample_runtime (to_dict sample_runtime backtest)
    ≡ some (record backtest { compute_spec = sent_compute backtest.compute_spec })
from_dict-to_dict_example = from_dict-to_dict sample_runtime backtest refl
