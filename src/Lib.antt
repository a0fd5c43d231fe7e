-- ===== src/Lib.antt =====
-- A model of the pipe library (src/pipe): a pipeline of stages, each with one or more worker
-- processes, joined by bounded queues.
--
-- The parts and how they interact. A worker reads messages from the queue before its stage through
-- an input channel, which unpacks chunks; it calls its stage with each item or batch; it sends what
-- the stage yields through an output channel, which packs payloads into chunks, to the queue behind
-- its stage. A put on a full queue is retried. When its loop ends a worker flushes, counts itself
-- out, and the last worker of a stage puts End and sets the stage's event. A reader of the final
-- queue stops at End. A worker may push an item back to an earlier stage. The lifecycle creates all
-- this, the health monitor restarts workers that crash or hang, or the whole pipeline,
-- and the scavenger parks or freezes workers whose GPU another program wants. Sequential mode runs
-- the same stages in one process.
--
-- Files, and the code they model:
--   Types       Sentinel of src/pipe/types.py; Chunk of src/pipe/queues.py, as one of the three
--               forms of a message: a bare payload, a chunk, a control signal.
--   Channel     src/pipe/queues.py: Output is _OutputChannel (send, maybe_flush, flush), Input is
--               _InputChannel (get, requeue_buffered, put), Iterator is PipeIterator.
--   Queue       ShmQueue of src/pipe/shmqueue.py with the capacity test of rust/src/ring.rs; Retry is
--               _put_retry and Instrumented is InstrumentedQueue of src/pipe/queues.py. Encode is
--               encode, put, get and _load of ShmQueue over the payload store.
--   Store       rust/src/store.rs: class_of, Store (new, alloc) and Block (share, drop). Payloads is
--               alloc_bytes and load_spilled of src/pipe/shmstore.py, Limits and Registered are the
--               sizes that PayloadStore and edge_ring_bytes choose and the names it registers.
--   Push        _make_push of src/pipe/workers.py: target_index resolves the stage, push_loop retries.
--   Cpu         _cpu_chunk and the thread count of _setup_cpu, src/pipe/workers.py.
--   Completion  _finish_worker of src/pipe/workers.py; Interleaving splits it into the steps that run
--               without the counter's lock.
--   Worker      _worker_run and _maybe_park of src/pipe/workers.py for a stage with an input queue:
--               Batch fills a batch, Pull is _pull and _put, Emit is _emit over a list, Loop is the loop,
--               Exit is what follows.
--   Monitor     one pass of _health_monitor_thread and _kill_hung_workers, src/pipe/monitors.py.
--   Configure   Pipe.add of src/pipe/pipe.py.
--   Lifecycle   start, _stop and restart of src/pipe/lifecycle.py: the configuration of stages, what a
--               start creates, and the reset of a stop.
--   Sequential  _sequential_run of src/pipe/sequential.py; Target is its _seq_push beside that of Push.
--   Scavenge    one slot in one poll of _scavenger_thread, src/pipe/scavenge.py, with _park_worker,
--               _freeze_worker, _thaw_worker and _keep_acked_park.
--   Source      _drain_source_generator and _SourceBackoff of src/pipe/workers.py; Root is the loop of
--               a root stage around them, with its output channel, and Promise what it is to send.
--   Threads     _threaded_worker_run of src/pipe/workers.py: Threads has the threads and their moves,
--               Exit what follows them and _pull and _put, Root the branch of a root stage.
--   Autoscale   _autoscaler_thread of src/pipe/_planned/autoscale.py, with _signal_worker_to_stop and
--               the counts of _spawn_additional_worker.
--   Helpers     src/pipe/utils.py: Batcher, BufferAndShuffle, RetrieveSQL over what a database answers,
--               and AsyncPoolWorker, whose waits report what is done.
--   Prelude     numbers, lists, options and tests that the parts share.
-- Each part has a module Tests with runs at concrete inputs.
--
-- State. A queue is the list of its messages, oldest first. A channel is a record of its fields and
-- of its queue. The worker's record holds its two channels, its counters and a trace of the calls of
-- its stage. The stage itself is a parameter: a function from the trace and the items to an outcome,
-- so it may keep state, raise, or yield anything. The environment is a list of ticks, one for each
-- iteration: the flags as read, the messages that arrive, the park request, the polls of a batch, and
-- as Faults which of its puts and gets raise and where. A put that raises loses the payloads that it
-- was to put, as the source has taken them from the pending list before. Exceptions are values of sum
-- types or the option none.
--
-- Numbers and fuel. Times are natural numbers: milliseconds for the channels, the unit of the caller
-- for pushes and stalls. Loops that wait for other processes run over a list of rounds or ticks;
-- how many are enough is a hypothesis where a result speaks of a return. The fuel of read_all and collect counts reads; their theorems ask
-- for more fuel than there are reads. A sequential run has fuel for its two loops; each amount of
-- fuel stands for a moment of the run.
--
-- The threads of a stage take turns: what a thread is about to do with the shared queue is its Hand,
-- each turn has at most one operation of that queue, and a list of moves says whose turn it is, so that every interleaving is a list of moves. What an
-- interleaving keeps is said of the mass of the payloads, for any weight of a payload, which is their
-- multiset. The thresholds of the autoscaler are percents. An operation of the payload store is one
-- step; in the source those of size classes hold the lock, and a dedicated segment adds to `used`
-- first and takes it back when it does not fit. Whether the system maps a new segment is a Boolean of
-- the allocation. Segments and offsets are natural numbers below what their packing holds, and a
-- message is a list of bytes. A queue over the store relies on pickle as the record Pickle says: what
-- was dumped can be loaded, and no pickle begins with the mark of a parked message.
--
-- Not modelled: the byte layout and wake-ups of the ring, and so the case that the ring has
-- no room for a spilled record or that the disk is full; the reducers of arrays and tensors, and the
-- sweep of a store; process and GPU set-up; logging and statistics other than the item count; the
-- sampling of CUDA tensors in _emit; the body of a stage's own run(); SQLConnection and
-- the printing of src/pipe/utils.py; what the scavenger reads from nvidia-smi; the web view.
mod Prelude
pub mod Types
pub mod Channel
pub mod Queue
pub mod Push
pub mod Cpu
pub mod Completion
pub mod Worker
pub mod Monitor
pub mod Lifecycle
pub mod Sequential
pub mod Scavenge
pub mod Source
pub mod Configure
pub mod Autoscale
pub mod Threads
pub mod Store
pub mod Helpers
