-- ===== src/Lib.antt =====
-- OddJob is a job queue for .NET: callers add jobs to a store, and an execution engine fetches
-- them, runs them and records how they end. This library models the parts of the program that
-- carry its own logic, and the collection code that the manager site serves to the browser.
--
-- The parts, and how they interact:
--
-- - Coordinator (OddJob.Execution.Akka/JobQueueCoordinator.cs): the actor between the store's
--   actor and the pool of workers. `receive` is `Receive`, with a function for each branch:
--   `on_configuration`, `on_shut_down`, `on_queue_shut_down`, `on_sweep` (`HandleSweep` is
--   `handle_sweep`), `on_succeeded`, `on_failed`. The actor's properties are a record, its calls
--   out are a list of `Effect`, and what it meets (the clock, the answer of an `Ask`, throwing
--   hooks) is an `Env` for each message. Its `int` and `long` counters are bit patterns that wrap
--   at 2 ^ 32 and 2 ^ 64.
-- - SqlStore (OddJob.Storage.SQL.Common/BaseSqlJobQueueManager.cs): the queue's table as a list
--   of rows, and the operations on it: `get_jobs` with its claims, the four marks, and the
--   guarded updates. `Where`, `Set` and `Update` of the data access library are read as an update
--   of the rows that pass, with SQL's nulls; the database's `OrderBy` is a parameter that keeps
--   only rows it is given. The counts of a row are numbers that do not overflow.
-- - SqlQueue (OddJob.Storage.SQL.Common/BaseSqlJobQueueAdder.cs and BaseSqlJobQueuePurger.cs, and
--   the join of BaseSqlJobQueueManager.cs): the tables of jobs, parameters and generic types
--   together. `add_job` is `_addJobImpl`, in the two parts between which other processes may
--   read; `purge_queue` is `PurgeQueue`; `serializable_join` is `ExecuteSerializableJoinQuery`.
--   The id that the database gives a row, the order of a query's rows, and whether the mapper
--   gives null or an empty object for the unmatched side of a join are parameters.
-- - JobSerializer and JobData (GlutenFree.OddJob.Serializable): jobs made ready for a store, and
--   the names of types, which are texts of character codes. Reflection, the regular expression
--   that strips versions, and the JSON library are the parameter `Runtime`. JobReader
--   (BaseSqlJobQueueManager.cs) puts the join and the resolving together: `execute_join_query`,
--   the searches, and the update of parameters.
-- - FileStore (OddJob.Storage.FileSystem): the queue in one JSON file. What a call meets when it
--   opens the file is a list of `Opening`, so that the loops over sharing violations end with the
--   list; the JSON library is the parameter `Codec`, of which it is assumed that it reads back
--   what it wrote, but for the properties without a public setter and for the values of the
--   arguments: these have no fixed type, and what each is read as is a function of the codec.
-- - ThreadPool (GlutenFree.OddJob.Execution.ThreadPool/Class1.cs): the engine on timers and a
--   pool of threads: `pulse_queue`, `loop_turn`, the handler, and the constructors with the
--   fields that they leave null. Its Drains compares the handler with the Coordinator.
-- - ExecutorShell (OddJob.Execution.Akka/JobExecutorShell.cs): the shell that callers use to
--   start and shut down queues. `start_job_queue`, `shut_down_queue` and `dispose` are its
--   methods, over its two dictionaries; each gives its state, what it asks of the actor system
--   and whether it throws. What the actor system does (the actor made, the replies, a throwing
--   scheduler) is a `World` for each call.
-- - LikeQueries (GlutenFree.Linq2Db.Helpers): conditions on rows as trees. `like_any` and its kin
--   are ExprHelpers, `visit_like_call` and `process_expression` the rewriting of their calls for
--   the database, and `combine_binary_expression` puts two conditions together. The culture's
--   change of case is the parameter `Culture`.
-- - StoreActor (OddJob.Execution.Akka/JobQueueLayerActor.cs): the actor over the store; it takes
--   what the coordinator sends (`request_of` reads the coordinator's effects) and catches what
--   the store throws. Its Lifecycle follows one row among several workers, in any order of
--   fetches, starts and reports, through the coordinator's decisions and the store's updates.
-- - WorkerActor (OddJob.Execution.Akka/JobWorkerActor.cs): the actor that runs the jobs and
--   reports them to the coordinator, over any executor.
-- - BalancedTree, FSharpMap, FSharpSet and Linq
--   (GlutenFree.OddJob.Manager.Presentation.WS/Scripts/WebSharper/WebSharper.Collections.js): the
--   trees under the immutable maps and sets, the maps and sets themselves, and the query
--   operators. The tree's spine, which the source keeps in an array, is a list.
-- - Seq, SortedList.Laws and HashTable
--   (GlutenFree.OddJob.Manager.Presentation.WS/Scripts/WebSharper/WebSharper.Main.js): the
--   functions on sequences, the sort and the distinct items that make maps of sequences, and the
--   hash sets. A sequence is the list of the items that its enumerator gives, and a thrown
--   exception is `none`. The hash set of `Seq.distinct` is modelled by the comparison of keys,
--   that is, an item's equality and hash are taken to agree with its comparison.
-- - Grouping has LINQ's `OrderBy` and `GroupBy` over lists, which the readers of the stores use.
--   Comparable and SortedList hold what these share: the comparison of keys as a weak order, and
--   sorted lists, the view under which maps and sets are specified. Prelude passes on the
--   library's names and has the tests, lists and lemmas that all parts use.
--
-- Loops are structural recursion where the source walks a sequence. Two loops have fuel: the
-- building of a tree from a range of an array, whose fuel is one more than the number of items,
-- and the enumeration of a tree, whose fuel is the number of its nodes; both are shown to give
-- the whole result. All sizes are arbitrary: nothing is bounded for the sake of the model.
--
-- Not modelled: Akka itself (mailboxes, supervision, delivery), the shells' constructors and the
-- mailbox, job creation and execution over expression trees and reflection, the database
-- providers, the manager site's pages, the samples and the tests, and the user interface and
-- runtime parts of the site's scripts.
pub mod Prelude
pub mod BalancedTree
pub mod Comparable
pub mod Coordinator
pub mod ExecutorShell
pub mod FSharpMap
pub mod FSharpSet
pub mod FileStore
pub mod Grouping
pub mod HashTable
pub mod JobData
pub mod JobReader
pub mod JobSerializer
pub mod LikeQueries
pub mod Linq
pub mod Seq
pub mod SortedList
pub mod SqlQueue
pub mod SqlStore
pub mod StoreActor
pub mod ThreadPool
pub mod WorkerActor
