-- ===== src/Lib.antt =====
-- sse-eventbus-go tracks clients of Server-Sent Events and delivers published events to them. A
-- publisher (bus.go) normalises and validates an event, finds its subscribers in the registry,
-- stores it for replay and pushes it on a bounded send queue. Workers pop it, wait for its turn
-- among the events of its client, and send it on the client's connection; a failed send comes back
-- after a delay. The HTTP adapter writes a message as an SSE frame.
--
-- Which file models which part, with the names of the source in the spelling of this library:
-- - Registry: subscription.go, MemorySubscriptionRegistry as a map from events to lists of
--   clients. Interface is the contract of SubscriptionRegistry as a record of operations and laws,
--   filled by the in-memory registry. Spec is the registry as a set of pairs. Go's map order is
--   open; the lists here are in order of insertion, and what is said of them does not depend on
--   it.
-- - Bus.Subscriptions: Subscribe, SubscribeOnly and UnsubscribeFromAll of bus.go over any registry
--   that fills the interface. Bus.Backoff: the delay computed in worker.
-- - Bus.Locks: lockClientContext for one client ID, with its callers as a step relation.
-- - Bus.Publish: handle and convert. The reads of shared state for a client, before and under its
--   lock, and the results of deliver are arguments; the calls that handle makes are a list. An
--   observation keeps its count and its error. Deliveries, Sweep and Recipients say who gets an
--   event, Messages what a connection makes of it.
-- - Bus.Distribution: Publish, which calls handle and then the distributed transport.
-- - Bus.Registration: the registration options of options.go. Bus.State: what the bus keeps of its
--   clients, with removePending, retire, replaceWith and the observations of extension.go; the two
--   queues are lists of pending sends there.
-- - Bus.Clients: RegisterContext, Disconnect and unregister on that state. Client generations are
--   numbered as they are made, a nil connection is none, and `same` is sameConnection. Each of these is a
--   function on the state that no other call for its client ID gets into. Steps interleaves them with
--   sends, heartbeats and Close, which do not take the lock of the ID: unregister is there in its
--   sections, and the client may become inactive between the check of a send and its end.
--   Invariant and Register say what stays true of the map, Effects, Removal and Disconnect what
--   each operation does, and Generations, Owns and Ownership follow the generations over a run.
-- - Bus.ReplayMissed: replayMissedEventsLocked and ReplayMissedEvents, and the whole of
--   RegisterContext with its replay. What the loop meets at each event is an argument.
-- - Bus.Worker: attempt, waitForRetry, the scheduling of a retry by worker, and a round of
--   retryLoop. Bus.Shutdown: the goroutine of Close, with no call of another thread in between. Bus.Tickers: a tick of expirationLoop,
--   heartbeatLoop and replayCleanupLoop.
-- - Retry: retryQueue of queue.go, with the heap of container/heap (Push, Pop and Init with up and
--   down) written from its documentation as a binary heap on a list. Order, Up, Down and Heap have
--   the heap order; Queue has the methods.
-- - Client.Turns: the counters of a client (assignOrder, waitForTurn, finishTurn, cancelTurn,
--   advanceCanceledLocked), with uint64 wrap-around written out.
-- - Client.Lifecycle: a client generation and its connection (retire, replaceWith, heartbeat,
--   Bus.send): the sections under its lock, and in Calls the threads that run them as a step
--   relation, where `inactive`, which is stored without the lock, may be set after a check of it.
-- - Queue: eventQueue of queue.go, a slice of slots and a head index. Each method runs under a
--   lock between two waits, so one round of the loop of push and pop is one function. Rounds
--   relates them to a list; Wakeups has the threads at the queue as a step relation, with the two
--   channels.
-- - Event: event.go. Replay: replay.go, MemoryReplayStore. Options: options.go and the loop of
--   New.
-- - Http: httpadapter/http.go, the frame that Send writes. Http.Stream is the parser of event
--   streams from the HTML standard, written from that standard and not from the code.
--   Http.Connection has Send, writeFrame, Close and openStream; Session is a run of calls of Send.
--   Http.Serve has the options of Serve, its way to the wait, and its deferred function, whose call
--   of Disconnect looks at the bus twice.
-- - Errors: the sentinels, and errors.Is and errors.Join on them.
-- - Prelude: integers, lists, texts as lists of bytes, and maps as association lists.
--
-- Bounds and fuel: the loop of advanceCanceledLocked runs on fuel, one round more than the map has
-- entries: each round takes an entry out, so the loop has stopped by then. The digits of an
-- integer are computed on fuel n + 1. Sifting a heap runs on fuel that is the number of its events,
-- and each round goes to a parent or a child. The attempts of an event run on fuel, one more than
-- the attempts that are left suffices. The counters are taken below 2^64 - 2 where an order is
-- assigned. A duration is a signed integer of nanoseconds, and a retry delay is below 2^63.
--
-- Outside the repository, and so arguments of the model: what a ResponseWriter answers (that
-- io.Writer takes bytes from the front of the text is a hypothesis, as documented), the contexts,
-- and the implementations that applications give for registries and converters.
--
-- Not modelled: the order of slices.Sort in the lists of clients, events and subscribers, the
-- comparison of connections by reflection, the JSON converter, listeners and observers beyond the
-- observations of clients and replays, and the headers and contexts of Serve.
pub mod Prelude
pub mod Registry
pub mod Bus
pub mod Errors
pub mod Event
pub mod Client
pub mod Queue
pub mod Retry
pub mod Replay
pub mod Options
pub mod Http
