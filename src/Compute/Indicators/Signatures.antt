-- ===== src/Compute/Indicators/Signatures.antt =====
-- The built-in indicators: their names in the registry
-- (packages/compute/stockstat_compute/compute_engine/registry.py) and the parameters of their
-- functions (packages/compute/stockstat_compute/indicators).
use Prim.Native.String.{String}
use stock_statistic.Common.{ℕ, List, [], ◌∷◌}
use stock_statistic.Common.Text.{Text, codes}
use stock_statistic.Common.Dict.{Dict}
use stock_statistic.Protocol.Value.{Value}
use stock_statistic.Compute.Indicators.{Signature, Called, IndicatorRegistry}

-- An entry: the name, and the function with its parameters.
abbrev pub entry : (name func : String) → List Text → ℕ → Text × (Text × Signature)
entry name func names defaults =
    (codes name, (codes func, record { names = names; defaults = defaults }))

abbrev pub signatures : Dict (Text × Signature)
signatures =
    entry "ma" "ma" (codes "data" ∷ codes "window" ∷ []) 1
    ∷ entry "sma" "ma" (codes "data" ∷ codes "window" ∷ []) 1
    ∷ entry "ema" "ema" (codes "data" ∷ codes "window" ∷ []) 1
    ∷ entry "wma" "wma" (codes "data" ∷ codes "window" ∷ []) 1
    ∷ entry "dema" "dema" (codes "data" ∷ codes "window" ∷ []) 1
    ∷ entry "tema" "tema" (codes "data" ∷ codes "window" ∷ []) 1
    ∷ entry "hma" "hma" (codes "data" ∷ codes "window" ∷ []) 1
    ∷ entry "macd" "macd" (codes "data" ∷ codes "fast" ∷ codes "slow" ∷ codes "signal" ∷ []) 3
    ∷ entry "adx" "adx" (codes "high" ∷ codes "low" ∷ codes "close" ∷ codes "window" ∷ []) 1
    ∷ entry "dpo" "dpo" (codes "data" ∷ codes "window" ∷ []) 1
    ∷ entry "trix" "trix" (codes "data" ∷ codes "window" ∷ []) 1
    ∷ entry "moving_average" "moving_average" (codes "data" ∷ codes "window" ∷ codes "method" ∷ [])
        2
    ∷ entry "rsi" "rsi" (codes "data" ∷ codes "window" ∷ []) 1
    ∷ entry "kd" "kd"
        (codes "high" ∷ codes "low" ∷ codes "close" ∷ codes "k_window" ∷ codes "d_window" ∷ []) 2
    ∷ entry "williams_r" "williams_r"
        (codes "high" ∷ codes "low" ∷ codes "close" ∷ codes "window" ∷ []) 1
    ∷ entry "cci" "cci" (codes "high" ∷ codes "low" ∷ codes "close" ∷ codes "window" ∷ []) 1
    ∷ entry "stoch" "stoch"
        (codes "high" ∷ codes "low" ∷ codes "close" ∷ codes "k_window" ∷ codes "d_window" ∷ []) 2
    ∷ entry "bollinger" "bollinger" (codes "data" ∷ codes "window" ∷ codes "std" ∷ []) 2
    ∷ entry "atr" "atr" (codes "high" ∷ codes "low" ∷ codes "close" ∷ codes "window" ∷ []) 1
    ∷ entry "keltner" "keltner"
        (codes "high" ∷ codes "low" ∷ codes "close" ∷ codes "window" ∷ codes "mult" ∷ []) 2
    ∷ entry "donchian" "donchian" (codes "high" ∷ codes "low" ∷ codes "window" ∷ []) 1
    ∷ entry "stddev" "stddev" (codes "data" ∷ codes "window" ∷ []) 1
    ∷ entry "rolling_corr" "rolling_corr" (codes "x" ∷ codes "y" ∷ codes "window" ∷ []) 1
    ∷ entry "rolling_beta" "rolling_beta" (codes "asset" ∷ codes "market" ∷ codes "window" ∷ []) 1
    ∷ entry "zscore" "zscore" (codes "data" ∷ codes "window" ∷ []) 1
    ∷ entry "percentile" "percentile" (codes "data" ∷ codes "window" ∷ []) 1
    ∷ entry "rolling_std" "rolling_std" (codes "data" ∷ codes "window" ∷ []) 1
    ∷ entry "rolling_mean" "rolling_mean" (codes "data" ∷ codes "window" ∷ []) 1
    ∷ entry "hurst_rs" "hurst_rs" (codes "data" ∷ []) 0
    ∷ entry "sample_entropy" "sample_entropy" (codes "data" ∷ codes "m" ∷ codes "r" ∷ []) 2
    ∷ entry "permutation_entropy" "permutation_entropy"
        (codes "data" ∷ codes "m" ∷ codes "tau" ∷ []) 2
    ∷ []

-- The registry after the module's loop, where `bodies` has the functions' bodies.
abbrev pub callables : (Text → Dict Value → Called) → Dict (Text × Signature) → IndicatorRegistry
callables bodies [] = []
callables bodies ((name, (func, s)) ∷ d) =
    (name, record { signature = s; body = bodies func }) ∷ callables bodies d

unfoldable pub built_in : (Text → Dict Value → Called) → IndicatorRegistry
built_in bodies = callables bodies signatures
