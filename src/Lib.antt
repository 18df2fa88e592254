-- ===== src/Lib.antt =====
-- curator.go: a client framework for ZooKeeper, and recipes on top of it.
--
-- The program is a library that wraps a connection to a ZooKeeper server. A caller of the
-- framework names a node; the framework puts its namespace in front of the path, runs the request
-- in a retry loop over the current connection, makes missing parents or deletes children where
-- that was asked for, and takes the namespace off what comes back. A manager follows the state of
-- the connection and tells its listeners. The recipes use the framework: the lock makes a
-- sequential node below its base path and waits until no node stands before its own; the atomic
-- value writes the version that it read; the node cache asks again on each event of its watch.
--
-- The files and what they model:
--   Base      lists, tests, integers and Go's strings over the native numbers. A Go string is
--             its list of bytes.
--   Errors    the errors that the code tells apart (api.go, paths.go, state.go, client.go).
--   Zk        ZookeeperConnection (client.go): the server is a parameter, as a record of calls
--             that take its state and return its results and its next state.
--   Path      paths.go: GetNodeFromPath, SplitPath, JoinPath; Path/Validate has ValidatePath with
--             the decoding of a range loop; Path/Dirs has MakeDirs and DeleteChildren.
--   Ensure    paths.go: ensurePath, its helper, and the views of ExcludingLast.
--   Retry     retry.go: the retry loop and the retry policies. The clock, the sleeper, the random
--             numbers and the tracer are parameters.
--   State     state.go: connectionStateManager, with the flags of utils.go.
--   Namespace namespace.go: FixForNamespace, unfixForNamespace and the cache of facades.
--   Framework framework.go, api.go, acl.go, event.go: what the builders share. A session is the
--             EnsurePath of the namespace and the state of the server; a builder asks for the
--             connection in each attempt of its retry loop. Framework/Connection has the session
--             events that reach the state manager, and the sync after a suspension;
--             Framework/Life has Start, Close and processEvent, down to the client.
--   Builders  create.go, delete.go, exists.go, data.go, children.go, acl.go, sync.go and
--             transaction.go. A request in the background returns at once, with the goroutine
--             that it starts as a value: a function from the session in which that runs.
--   Handle    state.go: the handle holder, which dials and keeps the connection.
--   Session   state.go: connectionState, with its time-out check, the events of the connection and
--             the queue of background errors. Session/Reach has its runs.
--   Client    client.go: the client of the framework, its dialer that adds authorizations, Start,
--             Close and Conn. Client/Life has its runs, down to the connections that are open.
--   Atomic    recipes/atomic.go: atomic values over the requests for one node, a mutex and a clock,
--             as records of calls. Atomic/History says what the server is assumed to do: the node
--             may be deleted and made again between two requests, with versions that start anew.
--   Listeners listener.go, watcher.go: the containers of listeners and watchers.
--   NodeCache recipes/cache.go: NodeCache over its requests; NodeCache/Missing composes it with
--             the request of exists.go.
--   Locks     recipes/locks.go: the lock driver, the lock internals and InterProcessMutex.
--
-- Fuel: the loop of MakeDirs gets one unit for each byte of the path and one more, and the loop
-- of postState two more than the queue is long, which are proved to suffice. DeleteChildren
-- recurs over a tree that the server lists, the retry loop goes on while attempts fail, and the
-- lock waits: these take their fuel as an argument, and `none` means that it ran out. The theorems
-- on their ending say how much is enough; the requests of the builders take the fuel of their
-- loop. The records of calls that the recipes use, the requests of an atomic value and
-- AcquireTimeout of its mutex among them, are functions that return: that a request's own retry loop
-- or the wait for a lock may not end is shown in Retry and Locks, not there. Go's int64 and int32 are kept with their wrap-around where the code computes with them
-- (the sleep times of an exponential backoff, the count of a held lock).
--
-- What runs at the same time in Go is a sequence of steps here: the manager's operations hold its
-- lock, and its loop takes one event at a time; an operation of the session runs as a whole,
-- between two events of its connection; other clients of an atomic value may act between any two
-- requests. Not modelled: waiting for a connection with a timer (BlockUntilConnected of state.go,
-- BlockUntilConnectedOrTimedOut of client.go), the goroutines that hand events to watchers
-- (watcher.go), PathChildrenCache (recipes/cache.go), which is unfinished, and the tracers;
-- interfaces, mocks and example programs have no behaviour of the library.
pub mod Base
pub mod Errors
pub mod Zk
pub mod Path
pub mod State
pub mod Retry
pub mod Namespace
pub mod Ensure
pub mod Framework
pub mod Atomic
pub mod Handle
pub mod Listeners
pub mod NodeCache
pub mod Session
pub mod Client
pub mod Builders
pub mod Locks
