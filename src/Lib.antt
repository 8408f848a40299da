-- ===== src/Lib.antt =====
-- A model of the reaction library: a graph of reactive values, its caches, the travel of a change
-- along it, the storage of values, and the switch to thread safety.
--
-- The parts and the files. All paths below are under include/reaction.
--   * Graph (graph/observer_graph.h): `ObserverGraph`. State.antt has its members as a record and
--     the small edits of them; Search.antt has `hasCycle` and `dfs`; Edit.antt has `addObserver`,
--     `addObserverInternal`, `resetNode`, `resetNodeInternal`, `saveNodeStateForRollback` and
--     `updateObserversTransactional`; Close.antt has `closeNode` and the cascade; Batches.antt has
--     the registry of active batches, and Collect.antt has `collectObservers`. Edges.antt and
--     Invariant.antt say what a well-formed graph is; the files under Search, Edit and Close, and
--     HasCycle.antt, prove what the operations do.
--   * Cache (cache/cache_base.h) is the versioned, bounded cache, and Graph/Caches.antt its three
--     instances (cache/graph_cache.h). `hasCycle` and `collectObservers` read and write them.
--   * Propagation (core/observer_node.h, expression/expression.h, policy/trigger.h): `notify`,
--     `valueChanged`, `handleChange` and `setValue`, over the observers that the graph keeps.
--   * Batch (graph/batch.h): `Batch`, which collects the observers of the nodes that its function
--     writes, protects them, and recomputes them in the order of their depths. Batch/Calls.antt has
--     `batchExecute` (factory/reactive_factory.h) of a function that also uses the operators below.
--   * Assign (core/react.h, expression/atomic_operations.h): the compound assignments and the
--     increments of a handle, on unsigned values of so many bits.
--   * Source (expression/expression.h): `setSource`, with the rollback of the node.
--   * Factory (factory/reactive_factory.h) has `calc`, with `ReactImpl::set` and the notification
--     (core/react.h, core/observer_node.h) on the state of Source; Tracking (core/react.h) has `set`
--     of a function alone, which makes what the function reads its dependencies.
--   * Operators (expression/expression_types.h) has the expressions built with operators, and `expr`.
--   * Handles (core/react.h, policy/invalidation.h): the handles on a node, which the node counts,
--     and what `CloseHandle`, `KeepHandle` and `LastHandle` do when the last one goes.
--   * Fields (graph/field_graph.h, factory/reactive_factory.h): the fields of objects, and `field`
--     and `var`, which make and bind them.
--   * Globals (concurrency/global_state.h): the thread-local variables and their guards.
--   * UniqueId (core/id_generator.h): the ids of objects with fields.
--   * Memory: Memory.antt has the choice of a place for a value (memory/memory_config.h) and the
--     thread's account of the stack (memory/stack_monitor.h); Sbo.antt has `SBOResource`
--     (memory/sbo_resource.h); Impl.antt has `ResourceImpl` (core/resource.h) and the operations
--     that expression/atomic_operations.h passes to it.
--   * Program: sequences of calls on handles and of batches, the parts above put together.
--   * Threads (concurrency/thread_manager.h): Steps.antt has the thread manager and its thread-local
--     caches, one access to its atomic members at a time, with the threads in any order; the other
--     files have the mutexes that lock only when thread safety is on, alone and shared, and their
--     guards, each operation with what the query answered that it begins with.
--   * Exception (core/exception.h): the exceptions, and results as values.
--   * Prelude: tests, sets and maps as lists, and walks along edges.
--
-- A node is a number, a pointer an optional number, and a weak pointer a number with a flag that
-- says whether the node is alive. A hash map is a list of pairs, a set a list; their orders stand
-- for the order in which the source walks them, which is not specified. Names and metrics are kept.
-- A clock reading, a thread's identity and the build's thread-safety mode are arguments. A call
-- that may throw gives a result that holds the graph at that moment.
--
-- Fuel. `dfs` visits no node twice, so one more than the number of keys is enough; a cascade of
-- closings marks each node once, so two more than that is enough; a notification goes as deep as
-- the rank of its node, for ranks that fall along the edges, which a graph without a cycle has;
-- so does a collection of observers.
--
-- Not modelled: the accessors of a handle, which forward to the parts above; the overloads and
-- builders of operators, which choose types at compile time; interleavings of threads inside a
-- call, but for those of ids and of the thread manager; orders of memory weaker than that each
-- access sees the last write; the floating-point ratios of the statistics;
-- which nodes a stored function or filter owns by the pointers that it captured: the closing of a
-- node takes them as an argument. A user's function in Propagation, Assign and Batch always gives a
-- value, and is the same on each run; in Source, Factory and Tracking it may throw. The two classes
-- of storage have one exception for a value that is missing. The handles that a user's function
-- holds are handles like others, whose destruction is a step of its own. Of the thread manager,
-- what only its tests call: the reset, the count of threads and the forced registration.
pub mod Prelude
pub mod Exception
pub mod Cache
pub mod Graph
pub mod Propagation
pub mod Program
pub mod Threads
pub mod Memory
pub mod Assign
pub mod Batch
pub mod Source
pub mod Handles
pub mod Fields
pub mod Globals
pub mod UniqueId
pub mod Factory
pub mod Tracking
pub mod Operators
