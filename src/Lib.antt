-- ===== src/Lib.antt =====
-- A model of cdm, a download manager in C, and the theorems that make its parts correct.
--
-- The daemon's loop (src/daemon/daemon.c) ticks the scheduler, reports progress, refills the
-- bandwidth bucket and serves clients; the scheduler starts one worker thread for each active
-- download, and the worker runs the engine, which plans byte ranges and fetches them in parallel.
--
-- - Download: the entry of the queue, `Download` of src/core/queue_manager.h. C strings are lists of
--   bytes without the closing NUL, a float is its bit pattern, and ints that the code keeps from
--   being negative are numbers.
-- - Queue: src/core/queue_manager.c. `Queue` has the linked list, newest first, and the next id;
--   `Queue.Requests` has cancel, pause, resume, clear_resume_state and update_status,
--   `Queue.Progress` the snapshots, and `Queue.Calls` the calls as data. Each function holds the
--   queue's lock for its whole body, so it is one step. A pointer to an entry is the entry's id; the
--   queue's invariant gives that an id names one entry. What `malloc` answers and whether the
--   destination is safe (`is_safe_dest_path`, which asks the file system) are arguments of `add`.
-- - Scheduler: src/core/scheduler.c. `settle` is `download_thread_fn` from the engine's return on:
--   the new queue, and the calls of the database, clients and desktop as a list of effects.
--   `Scheduler.Workers` has the 64 slots and `tick`; whether a thread could be created is an
--   argument. `Scheduler.Steps` interleaves ticks, calls of clients and workers, and `Reach`
--   lets a client reload the configuration between them.
-- - Persistence: src/persistence/db.c, `db_restore_queue` on the rows that SQLite answers, and the
--   queue that the daemon starts with.
-- - Segmenter: src/engine/segmenter.c, with its 64-bit arithmetic.
-- - WorkerPool: src/engine/worker_pool.c. The pool of slots with `acquire` (find an orphan, else split
--   the slot with the most left), in `WorkerPool.Worker` the write callback, the judgement of a
--   request and the end of a round of the worker's loop, and in `WorkerPool.Crew` the start and the
--   join of the threads and a step relation that interleaves their callbacks and ends. `acquire` holds
--   the pool's mutex. A callback takes no lock in the code and is one step here, so a split between
--   its read of `live_end` and its write is not modelled. What libcurl, the limiter and the file
--   answer are arguments. `worker_write_callback` gives the write that the file answers as complete,
--   and `stray_write` what a write that fails has left in the file.
-- - Engine: src/engine/engine_runner.c. `Engine.Run.prepare` is `engine_run_download` up to the run of
--   the pool and `conclude` is the code behind it, with the attempt over a single connection in
--   `Engine.Single`; what the network, the file system and the pool's first run answer are arguments,
--   and calls of the database and of unlink are a list of changes.
--   `on_rebalance_split` is the pool's callback.
-- - Finalize: src/engine/finalize.c. The size and the hash of the file are arguments.
-- - Sha256: src/platform/sha256.c, whole. The buffer starts with any bytes.
-- - Bandwidth: src/platform/bandwidth.c, the token bucket. A worker's loop is given the tokens that
--   each of its rounds finds.
-- - Paths: src/utils/path.c, the file name of a URL, the join of paths, and `path_make_unique`, which
--   is given the files that `lstat` finds and tries the numbers 1 to 999999, as the code does.
-- - Config: src/utils/config.c, the clamps and the test of the numbers that can be saved.
-- - Ipc: src/platform/ipc_socket.c and ipc_protocol.h, the daemon's side of the socket. A connection is
--   the list of what `read` meets. `Ipc.Wire` has the fields, `Ipc.Offers` the table of the browser's
--   offers and its requests, `Ipc.Commands` LIST, PAUSE, RESUME and CANCEL, which read the status in one
--   call of the queue and act in another, so the queue is two arguments, and `Ipc.Reserve` the loop of
--   `reserve_download`, which is given what each of its rounds meets. Loops over bytes recur on the
--   bytes left, of which each round reads one at least.
-- - Cli: src/cli/cli.c, the numbers, the options and the commands; what the daemon and the file system
--   answer is an argument. The pointer to the other headers is to a buffer that has ended when the
--   client reads it, so what is read there, `stale`, is an argument too. strtoull is modelled as C
--   defines it.
-- - HttpClient: src/platform/curl_client.c, the header lines of a request and of an answer. libcurl is
--   an argument.
-- - Gui: src/gui/gui_controller.c and gui_model.c. `Gui.Ring` is the ring that the events and the
--   commands are kept in, each at its own size, `Gui.Controller` the calls of the window and the
--   commands, and `Gui.Model` the rows that the window shows. A command's pointers lead into the ring.
-- - NativeHost: src/native_host/main_host.c, the frames, the messages of the browser and the poll of the
--   daemon. What cJSON finds in a message is an argument.
--
-- Every other loop recurs on the list or on the rounds left, so none takes fuel. Log messages are not
-- modelled.
--
-- Not modelled: the rest of src/persistence/db.c, whose functions are SQLite statements; the table of connected
-- clients and the client's side of src/platform/ipc_socket.c, the order in which src/daemon/daemon.c
-- and src/main.c start and end things, and src/gui/gui_client.c, which wait on sockets; the drawing of
-- src/gui/gui_nuklear.c and browser_popup.c; the calls of the operating system in src/platform, the
-- installer, and the copies of other projects in src/vendor.
pub mod Prelude
pub mod Download
pub mod Queue
pub mod Persistence
pub mod Scheduler
pub mod Segmenter
pub mod Bandwidth
pub mod Cli
pub mod Config
pub mod Engine
pub mod Finalize
pub mod Gui
pub mod HttpClient
pub mod NativeHost
pub mod Ipc
pub mod Paths
pub mod Sha256
pub mod WorkerPool
