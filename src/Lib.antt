-- ===== src/Lib.antt =====
-- Penampakan: a model of the parts of the library that decide, and what holds of them.
--
-- Penampakan lets a text-only language model ask about an image. A session turns the results of vision
-- backends into observations, runs a bounded loop in which a policy calls tools, and accepts an answer
-- only with evidence that cites observations. The parts that are modelled:
--
--   Config   src/penampakan/config.py: run limits, timeouts, the cache path rule, backend preferences.
--   Budget   src/penampakan/reasoning/budget.py: `RunBudget`, the counters and the deadline of one
--            run, with its reservations and refunds. It is built from the limits of Config.
--   Cache    src/penampakan/perception/cache.py: `MemoryLRUCache` and, in Cache/Null, `NullCache`;
--            Cache/Json says which bytes a cache accepts.
--   Flights  `SingleFlightCoordinator` of the same file; Flights/World has the callers beside it.
--   Models   src/penampakan/models.py: observations and their payloads; Models/Boxes has `Box`, and
--            Models/Ids the identifiers that the store gives and the context compiler reads.
--   Store    src/penampakan/perception/store.py: `ObservationStore`, the observations of a session;
--            Store/Interrupt has `_append` with its handler.
--   Answer   src/penampakan/reasoning/answer.py: `validate_evidence` and `materialize_answer`, on the
--            observations of Models that the session takes from the Store.
--   Context  src/penampakan/reasoning/context.py: `ContextCompiler`, the choice of the observations that
--            the policy sees: Context/Lines and Context/Pieces write text, Context/Assets finds the
--            eligible assets, Context/Select ranks and selects, Context/Compile has `compile`.
--   Assets   src/penampakan/image/assets.py: `AssetStore`, the images of a session. Assets/Plan decides which
--            rendered images are new, Assets/Commit has the store's methods.
--   Session  src/penampakan/session.py: the run of a question. Session/Policy calls the policy,
--            Session/Tools and Session/Execute act on what it decides and commit to the Store and to
--            Assets, Session/Answering accepts an answer by Answer, Session/Ask has the loop under Budget.
--   Registry src/penampakan/perception/registry.py: `ToolRegistry`, the tools by name, with the check that
--            their schemas are closed. Session has what a run reads of it as parameters (`Host`).
--   Sinks    src/penampakan/trace_sinks/memory.py: `InMemoryTraceSink`, the trace events of the latest runs;
--            Sinks/Views has its reports.
--   Retry    src/penampakan/llms/_retry.py: `call_with_retries`, the loop that every provider adapter runs.
--
-- A definition has the name of the function, method or class that it models. A part's state is a record
-- with the fields of the class. A method is a function from the state to its result and the state that
-- it leaves (Base/Exec); a method that only computes returns its result (Base/Result). An exception is
-- a value of Base/Errors. A method of Budget, Cache, Store and Sinks runs under a lock without awaiting, so one
-- call is one step, and an interleaving of callers is a list of calls. `run` of Flights awaits between
-- two steps. What Retry awaits is in its rounds. A run of
-- Session is a function of the session's state (Base/Run) with the policy, the tools, the clock and the
-- trace as parameters over a state of their own (`Host`).
--
-- Integers are natural numbers where the code has checked that they are not negative, and Base/Int's
-- integers before that. Floating-point numbers are a parameter (Base/Floats) with the operations that
-- the code calls and no law; a theorem that needs a law names it. Arguments that the code tests with
-- `isinstance` are a sum (`Arg`). The clock's reading is an argument of every call that reads it. The
-- JSON decoder and encoder, Unicode case folding and stripping, relevance scores, and the callback that
-- says who owns an asset are parameters.
--
-- Loops that are not over a list are on fuel. Printing a number has one more round than the number. In
-- Context, the search for eligible assets has a round for each asset and each parent that is not there
-- yet, the removal of lines one more than there are lines, and the binary search one more than there are
-- candidates. The retry loop has a round for each attempt that the policy allows. The
-- loop of a question has one more round than the run has steps, and the search for an asset's lineage two
-- more than the deepest derivation. Where fuel would run
-- out, the result is `none`.
--
-- An exception of the interpreter's own (KeyboardInterrupt, MemoryError, RecursionError) is left out
-- everywhere but in Store/Interrupt. pydantic's validation of what the policy is given is a parameter.
--
-- Not modelled: image processing, provider SDKs, SQLite, the building of a trace and its other sinks, the
-- router of backends, and of the session the initial observations, inspection and its opening and
-- closing.
pub mod Base
pub mod Config
pub mod Budget
pub mod Cache
pub mod Models
pub mod Store
pub mod Answer
pub mod Context
pub mod Retry
pub mod Assets
pub mod Session
pub mod Sinks
pub mod Registry
pub mod Flights
