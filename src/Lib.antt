-- ===== src/Lib.antt =====
-- Fallow, an inference and batch fabric over idle machines. A coordinator keeps a durable queue of
-- content-addressed work units and hands them to agents under expiring leases.
--
-- Queue models packages/fallow-coordinator/src/fallow_coordinator/queue: the rows of schema.sql and
-- the messages of fallow_protocol (Queue/Rows), the statements of _sql.py as functions on the tables
-- (Queue/Tables), and the methods of SqliteQueueStore as functions from the tables and the time to
-- the new tables, the value returned and the transitions emitted (Status, Lease, Requeue, Backup,
-- Complete, Submit). The store serialises its mutations by one lock, so a history is a list of calls
-- (Queue/Runs). Ids are texts, times are whole microseconds, JSON payloads are opaque texts.
--
-- Protocol holds the messages of packages/fallow-protocol that several parts exchange.
--
-- Agent models packages/fallow-agent/src/fallow_agent/preempt: PreemptController, ReclaimController and
-- PollLoop._safe_poll (Preempt), with the supervisor's calls and the sink's events as a list of
-- effects in the order of the code. Clocks, the idle detector and the statuses are read from a tick.
--
-- Scheduler models packages/fallow-coordinator/src/fallow_coordinator/scheduler: _eligibility.py and
-- poll.py (Eligibility), policies.py (Policies, RoundRobin), selection.py and speculative.py. The text
-- of an address and the survival of the churn model are arguments.
--
-- Gateway models inflight.py (Inflight), affinity.py (Affinity), admission.py (Admission)
-- and quota.py (Quota, with a token counted exactly in sixty-millionths) of
-- packages/fallow-coordinator/src/fallow_coordinator/gateway; the policy's pick, the probe and the
-- clock's reading are arguments, and the event loop makes each call one step. The loop of
-- AdmissionQueue.wait is one turn at a time.
--
-- Mesh models packages/fallow-modelmesh/src/fallow_modelmesh: ChunkStore, missing_chunks, fetch_delta
-- and reconstruct (Store), merkle_root (Merkle), and iter_file_chunks and build_manifest (Building),
-- with sha256 and the peers as arguments and exceptions as values. The loops of the last three run on
-- fuel: the number of chunks, or of bytes of the file, is enough.
--
-- Registry models packages/fallow-coordinator/src/fallow_coordinator/registry: the tables of schema.sql
-- (Rows), enrolment tokens and registration (Tokens), heartbeats, presence, revocation and
-- authentication (Presence), the liveness views and mapping.py (Views), models, assignments and API
-- keys (Catalogue), and its writes as a history (Calls). sha256, minted secrets and uuids are
-- arguments; a write that fails is rolled back and leaves the tables as they were.
--
-- Relay models packages/fallow-coordinator/src/fallow_coordinator/site_relay/broker.py: the response
-- stream (Stream, with its writers, reader and closers in any order in Delivery), the broker's tables
-- (Rows), how a claim leaves the registry (Registry), the calls that answer a claim (Responses) and
-- the rendezvous (Claims). The broker's lock admits one call at a time, so a history is a list of
-- calls (Calls), which also give the streams to close. A claim's wait is split into its two locked
-- parts; futures are rows that fresh tickets name, and an offer's uuid is an argument.
--
-- Not modelled: SQLite itself (each statement is read as its documented effect on the tables), the
-- connection's life cycle and its migrations, HTTP and its routes, a mesh peer whose fetch raises, a
-- relay wait that times out in the moment of a close, the rounding of floats, the clock, which is an
-- argument, and the parts that nothing here models yet: the churn model and the v2 scheduler,
-- retrieval, the agent's supervisor, workers and heartbeat loop, the command line and bench.
pub mod Prelude
pub mod Protocol
pub mod Queue
pub mod Scheduler
pub mod Gateway
pub mod Registry
pub mod Relay
pub mod Agent
pub mod Mesh
