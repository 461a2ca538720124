-- ===== src/Lib.antt =====
-- PeerQ: a leaderless task mesh. Peers hold a table of task records, merge the records they hear
-- of by gossip, queue the pending ones, and log every change.
--
-- Prelude    lists, options, orders, integers and Python's dict.
-- Errors     the exceptions as values.
-- Json       the values of Python's json module, `bytes.hex` and `bytes.fromhex`.
-- Security   peerq/security.py: the limits of the protocol (Security), `validate_json_tree` (JsonTree),
--            whose loop runs on fuel, the size of the value, `ReplayCache`, `RateLimiter`,
--            and `SecurityConfig` (Config).
-- Consensus  peerq/consensus.py: `VectorClock` (Clock), `TaskState`, `FenceToken` and `TaskRecord`
--            (Record), `_record_lattice_key` (Lattice), `merge_records` (Merge), `to_dict` and
--            `from_dict` (Wire).
-- Crypto     peerq/crypto.py: the key ring, the signed document of a record, signing and
--            authorization. Merge takes its ring as an optional argument.
-- Heap       the part of heapq that the queue and the clock use.
-- Queue      peerq/queue.py: `BackpressurePriorityQueue`. Its condition variable is the list of the
--            coroutines that wait and of those that are woken; a run of the queue is a list of
--            events, each of which is one uninterrupted piece of a coroutine.
-- Flow       peerq/queue.py: `CreditFlowController`. A call of `acquire` is a round of its loop, from
--            the start or from a wake-up.
-- Clock      peerq/clock.py: `SimClock`.
-- Failure    peerq/failure.py: `PhiAccrualDetector`. The operations of floats and of the math module are
--            a parameter.
-- Exporter   peerq/exporter.py: the report on a node (Exporter), the dashboard (Html), the metrics
--            (Prometheus) and the server with its pages (Server). It reads the node, the failure
--            detector, the credits and the metrics, and answers through the HTTP server.
-- Cli        peerq/cli.py: the peers and the keys of the command line, the checks before a node
--            starts, and the message of a submitted task, which Node receives.
-- Wal        peerq/wal.py: the log as the bytes of its file. `replay` runs on fuel, one more than
--            the bytes of the file, since each round reads at least nine.
-- Metrics    peerq/metrics.py: the log-linear histogram on whole measurements, and the collector.
-- Transport  peerq/transport.py: messages and their frames (Message), the age of a message and its
--            nonce (Freshness), both ends of a TCP connection (Tcp, with Dial for the side that
--            connects), the simulated network and the guards of UDP (Sim), and the HTTP server
--            up to its handler (Http). A connection is the bytes that it yields and a list of
--            ticks, one for each read of the clock; a session takes as many rounds as ticks.
-- Discovery  peerq/discovery.py: beacons, the directory of peers, its expiry, and the node that is
--            bound to it (Binding). It reads messages of Transport and the ring of Crypto.
-- Node       peerq/node.py: the task table of `PeerNode` under `submit_task` (Submit) and
--            the gossip part of `_recv_loop`, for a node without a log; one message of that loop
--            with its authentication and the other handlers (Messages, Receive); the
--            steps of the worker and of the reclaim pass (Worker), the relation in which the
--            coroutines interleave between their awaits (Loop), and the payload of the
--            periodic gossip (Gossip); the messages that a node signs (Sent), the lease of a task
--            (Lease), recovery from the log (Recovery), whose records Wal yields, and the
--            constructor (Create).
-- Tests      concrete inputs for the theorems.
--
-- Numbers are native; where the source has floats (times, leases, delays) the model has whole
-- microseconds, or a value that is not finite. Texts and bytes are lists of numbers. Parameters
-- stand for code outside of the repository: Ed25519 of the cryptography package (`Ed25519`), the
-- json module and the formatting of floats (`Codec`, `Rendering`), the float product of `quantile`, the floats of the failure
-- detector (`Floats`), zlib's crc32, and Python's Unicode tables and
-- decoders (`Text`, and `isspace` of discovery). A heap is kept as an
-- ascending list: the program observes a heap by its first entry and its size only.
--
-- Not modelled: sockets, argparse, urllib and the programs that use the library, which are I/O; the
-- text of an HTTP response and the fixed text of the dashboard; of the node, the log calls outside
-- of recovery and the credits that it sends; fsync and file handles.
pub mod Prelude
pub mod Consensus
pub mod Errors
pub mod Security
pub mod Json
pub mod Crypto
pub mod Heap
pub mod Queue
pub mod Flow
pub mod Clock
pub mod Wal
pub mod Exporter
pub mod Cli
pub mod Failure
pub mod Node
pub mod Metrics
pub mod Transport
pub mod Discovery
pub mod Tests
