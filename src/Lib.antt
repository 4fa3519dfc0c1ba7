-- ===== src/Lib.antt =====
-- StockStatistic: the dispatcher and the workers of a distributed computing service for market
-- statistics, the task protocol that they and their clients share, the backtests and indicators that
-- workers run, the storage of prices, and the client's expression language.
--
-- A client submits a TaskSpec, which says what data it needs, what is computed and how it is
-- dispatched. The dispatcher divides it into slices and puts these into a priority queue. Workers
-- register, send heartbeats and ask for work; with an assignment goes the data, which the
-- dispatcher fetches once and caches. Workers report a slice as complete or failed; when all are
-- in, the partial results are merged. A background check sets silent workers offline and puts
-- their slices back into the queue.
--
-- Files and what they model:
--   Protocol/Task, Decode, RoundTrip, CacheKey
--     packages/foundation/stockstat_foundation/protocol/task.py: the records of a TaskSpec, to_dict
--     and from_dict of each of them, and DataSpec.cache_key. Protocol/Value has the Python values
--     that stand in dictionaries.
--   Dispatch/Queue      packages/dispatcher/stockstat_dispatcher/queue.py, MemoryTaskQueue
--   Dispatch/Redis      the same file, RedisTaskQueue
--   Dispatch/Workers    packages/dispatcher/stockstat_dispatcher/workers.py, WorkerRegistry
--   Dispatch/Cache      packages/dispatcher/stockstat_dispatcher/prefetch.py, DataCache; put and
--                       clear are put_bytes and clear
--   Dispatch/SliceId    the ids of slices, in shard.py and core.py beside it
--   Dispatch/Shard      packages/dispatcher/stockstat_dispatcher/shard.py
--   Dispatch/State      the state of packages/dispatcher/stockstat_dispatcher/core.py, TaskInfo of
--                       packages/foundation/stockstat_foundation/contracts/compute.py, merge.py
--   Dispatch/Client     core.py: submit, get_status, get_result, cancel
--   Dispatch/Assign     core.py: assign_task, _prepare_assignment, _prefetch_data,
--                       _fetch_from_storage
--   Dispatch/Outcome    core.py: on_complete, on_fail, on_partial
--   Dispatch/Watch      core.py: _check_loop and _reassign_worker_tasks
--   Dispatch/Report     core.py: cluster_info, autoscaler_metrics, task_history
--   Dispatch/Cluster    packages/dispatcher/stockstat_dispatcher/cluster.py
--   Dispatch/Run        packages/dispatcher/stockstat_dispatcher/routes.py: the requests, in any
--                       order, with the rounds of the background check between them
--   Protocol/Envelope   packages/foundation/stockstat_foundation/protocol/envelope.py
--   Protocol/Errors     packages/foundation/stockstat_foundation/errors.py
--   Protocol/Messages   packages/foundation/stockstat_foundation/protocol/messages.py
--   Compute/Local       packages/compute/stockstat_compute/backend/local.py
--   Compute/Auto        packages/compute/stockstat_compute/backend/auto.py, and the sizes and ways
--                       of packages/foundation/stockstat_foundation/utils/serialization.py
--   Compute/Checkpoint  packages/compute/stockstat_compute/checkpoint.py
--   Compute/Worker      packages/compute/stockstat_compute/worker.py and executor.py; Steps has its
--                       threads in any order
--   Service             rounds of worker.py against core.py of the dispatcher
--   Backtest/Portfolio, Models, Broker, Engine
--     packages/compute/stockstat_compute/backtest/portfolio.py; cost_model.py, fill_model.py and
--     execution_model.py; broker.py; engine.py. Backtest/Arith has the arithmetic.
--   Backtest/Metrics    metrics.py beside it: the statistics of trades
--   Backtest/Results    metrics.py, result.py and the end of engine.py: the metrics of a run and its
--                       result
--   Backtest/Searches   the runs of the searches; its GridSearch, BatchRunner and WalkForward are
--                       grid_search.py, batch_runner.py and walkforward.py beside it
--   Compute/Indicators  packages/compute/stockstat_compute/compute_engine/registry.py and engine.py;
--                       Signatures has the parameters of the functions in indicators beside it
--   Compute/Handlers    packages/compute/stockstat_compute/handlers/_base.py and
--                       handlers/backtest/indicator.py
--   Compute/Remote      packages/compute/stockstat_compute/backend/remote.py
--   Storage/Collector   packages/storage/stockstat_backend/scheduler/collector.py
--   Storage/Tables      packages/storage/stockstat_backend/models/ohlcv.py
--   Storage/Incoming, Backend
--     packages/storage/stockstat_backend/storage/backend.py: the records that it is given, and its
--     operations
--   Storage/QueryCache  cache.py beside it
--   Invocation/Dsl      packages/invocation/stockstat/dsl/parser.py; Invocation/Scan has its text
--                       operations
--   Invocation/Client   packages/invocation/stockstat/client.py and compute_api.py: the
--                       specifications that their methods build
--   Invocation/Indicators
--     the methods of compute_api.py for indicators, computed or submitted
--   Invocation/Evaluator
--     packages/invocation/stockstat/dsl/evaluator.py
--   Common              the shared names and lemmas; Tests has the concrete inputs.
-- The theorems stand in the children of a module, or after its definitions.
--
-- How it is modelled. The state is passed on explicitly, and the clock is an argument. A text is
-- the list of its code points, and a dictionary an association list in the order of insertion. A
-- handler of the dispatcher is one step: the routes are coroutines that call it without
-- suspending; the background thread is taken to run between handlers. Counts and times are
-- naturals, priorities are integers; a float is stored as its bit pattern and a progress or hit
-- rate as the two counts whose quotient the program takes. Python's integers have no width, and so
-- nothing wraps around.
--
-- What is not under src/ is a parameter: the record Outside has base64, cloudpickle, the SHA-256
-- digest, the pandas operations, the storage services and the order in which a set is listed, and
-- the record Runtime has the texts of dates and the conversion of integers to floats. A storage that
-- raises and inline data that cannot be decoded are outcomes of the prefetching. Theorems rely on
-- these only where their hypotheses say so: that the text of a date reads back, that base64 and
-- cloudpickle read what they wrote, or that the data of slices can be read. The record Encodings has
-- base64, JSON and msgpack for envelopes, with the hypotheses that each reads what
-- it wrote and that JSON refuses what msgpack wrote. The Redis queue runs over a record Server of
-- the list commands; the record IsDocumented has their documented behaviour. The estimate of sizes
-- takes what pandas and the interpreter say of the size of an object.
--
-- The thread of a local task is two steps, before and after the call of its handler, and cancel
-- may be called before, between and after them. What the handler returns or raises is open.
--
-- The backtest runs over a record Arith of the operations of floats; the record IsOrdered names the
-- laws that its theorems rely on, which hold of floats as long as none is an infinity or NaN: the
-- comparisons are a total order, a sum of two that are not negative is not negative, and neither is
-- x - y where y is not above x. A division by zero is an outcome of the broker, as Python's floats
-- raise it; a price that numpy gives as its own float would yield an infinity or NaN instead, which
-- these laws leave out. The strategy of the user is a parameter with a state of its own.
--
-- The worker's main thread and its pool meet in the dictionary of the futures: handing a slice to
-- the pool, storing its future and the end of its thread are three steps, in any order that the
-- code allows. In Service a round is taken as a whole, with the future stored in between. The
-- handlers of tasks are a parameter, and so is the message with which a worker refuses a dictionary
-- that is no specification.
--
-- The storage runs over a record Session of the statements that the code makes of SQLAlchemy, and the
-- record IsDatabase has their documented behaviour: a merge replaces the row of its primary key and
-- no other, a commit changes no row, a query selects the rows of its condition in its order, each
-- once. The record Pandas has the operations on frames, and IsPandas what they do to rows. Dates are
-- naturals, and Conversions has the readings of dates and numbers.
--
-- The metrics of a run take the operations of a pandas series as a record Series. Strategies keep a
-- state between runs, as the objects of Python do; a grid search makes a new one for each
-- combination. What an indicator computes from its arguments is a parameter, and the binding of the
-- arguments of a call to the names of a function is modelled. The evaluator takes the methods of the
-- client as a record.
--
-- Loops. The parser of expressions runs on as much fuel as the expression has characters, and the
-- search of assign_task on one round more than the queue has entries; theorems show that this is
-- enough. The windows of a walk forward are found on one round more than there are bars, which is
-- enough for a step above zero; for a step of zero the loop of the code does not end. The wait for a remote task is a recursion on the rounds that it sees. The eviction of the
-- cache runs on as many rounds as there are entries, and ends earlier when there is room or no
-- entry. The rest are structural recursions.
--
-- Not modelled: the blocking form of dequeue, the connection to Redis, the JSON texts and HTTP
-- status codes of the routes, a split strategy of None, the inline data that _prefetch_data keeps
-- decoded in the parameters, counts below zero, the interleaving of threads inside a handler, a
-- second submission of a local task that still runs, the cleaning of the data frame of a backtest,
-- a ComputeError of a strategy, the recursion limit of Python, the HTTP of the remote backend, the keywords of the client's remote
-- and its choice of a backend, what a compiled strategy of an expression does with a bar; the
-- numerical bodies of the indicators, the Monte Carlo simulation and the statistical handlers, which
-- are numpy and pandas; the codecs and transports, the engine of the database, the HTTP routes of the
-- storage and the data vendors, which call other packages.
pub mod Common
pub mod Protocol
pub mod Dispatch
pub mod Compute
pub mod Backtest
pub mod Invocation
pub mod Storage
pub mod Service
pub mod Tests
