-- ===== src/Lib.antt =====
-- Verification of the stateful core of anomaly_metric_creator: the overlay of changes that clients
-- of a served simulation make, the file that it is saved in, the parser of the commands that they
-- send, the Helm commands, the requests of the Kubernetes API and its label selectors, the store of
-- the clients' traces, the streams of telemetry, the graph that orders the components and the
-- joining of their files, and what logs and refusals may show of a secret.
-- The program's files are in src/anomaly_metric_creator.
--
-- The parts and how they work together. A client's command is taken apart by `parse_command` of
-- server_ops_parse.py; a handler then calls the mutators of `SimulationMutations` (server_mutations.py).
-- Each mutator changes the overlay and ends in `_commit_locked`, which raises the version and writes
-- the overlay to the file of `--persist-mutations` through `_atomic_artifact_open` (artifacts.py). At a
-- start `load_persisted_mutations` (server_mutations_loader.py) reads the file back. The Helm commands of
-- server_helm_impl.py are such handlers: they change the release through the mutators. A trace of each
-- command is kept by `CommandTraceStore` (server_traces.py). The components are generated in the order
-- that topology_impl.py gives them, and their files joined by combine_impl.py.
--
-- The files:
--   Base.antt and Base/: what the others share: Python's dict, set and text methods, `==`, integers.
--   Exec.antt, Exec/Keeps.antt: functions and methods that may raise, and rules for their invariants.
--   Json.antt: the values of `json`, and the contents of a file.
--   Artifacts.antt: `_atomic_artifact_open`; Artifacts/Atomic.antt has its theorem.
--   Mutations.antt: the overlay, its envelope, `_persist_locked`, `_commit_locked`;
--     Mutations/Methods.antt: the mutators, with `record_event` in Methods/Recording.antt;
--     Mutations/Requests.antt: any list of them, one after the other; the other files below it prove
--     what they keep.
--   MutationsLoader.antt: the checks of the loader; MutationsLoader/Hydrate.antt: the overlay that it
--     builds and `load_persisted_mutations`; the other files below it prove the round trip.
--   OpsParse.antt: the tables of server_ops_parse.py and `ParsedCommand`; OpsParse/Split.antt:
--     `_split_flags`; OpsParse/Targets.antt: kinds and targets; OpsParse/Families.antt:
--     `_parse_kubectl` and `_parse_helm`; OpsParse/Command.antt: `parse_command`, the fingerprint and
--     the trace; OpsParse/Redact.antt: the redaction; OpsParse/Shlex.antt: Python's `shlex`. Turns.antt
--     and Positionals.antt say how words are read, Secrets.antt and Redacting.antt what is shown of them.
--   Redaction.antt: the headers that a log shows (redaction.py); Redaction/Secret.antt proves it.
--   ArgvSafety.antt: the flags that a refusal names (cli_argv_safety.py); ArgvSafety/Origin.antt.
--   OtelStream.antt: `_post_with_retries` and `stream_otel_gauges` (otel_stream.py), whose requests are
--     logged through redaction.py; the files below it prove the retries, batches, windows and limits.
--     OtelStream/Signals.antt has `stream_otel_signals`; Attempts.antt counts its requests and
--     Posts.antt says which they are, and Sorted.antt in what order.
--   Traces.antt, Traces/: `CommandTrace` and its filters (Trace.antt), the grouping of unsupported ones
--     (Summary.antt), `CommandTraceStore` in memory (Ring.antt) and with SQLite (Table.antt) of
--     server_traces.py; Polls.antt lets threads come between the halves of a summary, Newest.antt and
--     Stored.antt compare the stores with the history of what was recorded, Mirror.antt the two tables.
--   Helm.antt: the history of the release and what is read from it; Helm/Values.antt, Helm/Read.antt and
--     Helm/Commands.antt: the flags and the commands of `_render_helm` (server_helm_impl.py, with
--     `_is_dry_run` of server_command_render.py) against the release in the overlay; Effects.antt says
--     what each command means for the history, History.antt, Kept.antt, Follows.antt and Told.antt that
--     it is so, Dry.antt what changes nothing.
--   Topology.antt: the cycle check of `_validate_topology` and `_topology_generation_order`
--     (topology_impl.py); Rounds.antt has what a round of their loops leaves, Acyclic.antt and Cycles.antt
--     the check, Sorting.antt, Order.antt and Kahn.antt the order, Edges.antt and Generation.antt both in
--     terms of the edges.
--   Selectors.antt: the label selectors of server_k8s_api.py; Plain.antt and Terms.antt below it take one
--     of `key=value` terms apart.
--   KubeApi.antt: how server_k8s_api.py reads a request that changes something (`_k8s_mutation_target`,
--     `_payload_replicas`) and its responses, with the kinds of server_ops_render_manifest.py;
--     KubeApi/Mutating.antt: `kubernetes_api_mutating_response` (server_k8s_dispatch.py), which calls the
--     mutators, with the pieces that read no state in Answers.antt, and the 500 that server.py sends for
--     an exception. Paths.antt takes paths apart; Asked.antt says which requests to the overlay a call
--     stands for, Issues.antt and Obeys.antt that the handlers make them; Succeeds.antt, Refused.antt and
--     Effects.antt say what a call leaves.
--   Combine.antt, Combine/: the wide layout of `combine_logs_unified` (combine_impl.py): the merge of
--     streams and the buckets sorted in memory; Keys.antt has the order of rows, Buckets.antt and
--     Views.antt what a list of buckets says, Fill.antt and Sorted.antt that of each path, Merge.antt,
--     Occurrences.antt and Streams.antt the streams, Agree.antt that the paths agree.
--
-- State. `World` is the overlay, the files by path and the faults of the writes to come: each atomic
-- write takes the next fault, and a list that is used up lets every write succeed. A method is a
-- function of the world that returns a value or an exception and the world that it leaves, also where
-- it raises. The lock is not modelled: each method holds it over its writes, so a method is one step;
-- `put_resource` and `delete_resource`, which record their event after a first block, are taken as one.
--
-- Values. A Python int is an integer without bounds; the overlay's version, which starts at 0 and only
-- grows, is a natural number. A float is its `repr` with what `int` makes of it. A dict is a list of
-- pairs with text keys, a set a list without repetition. A file holds a JSON text, by its value, or
-- bytes that cannot be read as one. All loops are by recursion on lists or texts; the only fuel is that
-- of the decimal digits of a number n, which is n + 1, and each round drops a digit, and that of the
-- retries of a post, one more than `max_retries`, since a turn for each attempt is enough, and that of
-- the rounds over the topology, the number of its nodes, since each round takes one out.
--
-- The Kubernetes requests are stated over `Views`, a record of any functions in place of
-- `resource_snapshot`, `_generic_resource_row` and the renderers of objects: they may raise, read the
-- state at one time of the clock and change nothing. An object's metadata is a dict. Between two steps
-- of a request no other request comes, although the program holds its lock only within a mutator.
--
-- Not modelled: the merge of the overlay into the snapshot, the GET requests, `summary`, the quotes
-- and escapes of `str` of a list or dict, letters other than ASCII in `str.lower` (but for the two
-- whose small form is an ASCII letter), the text of an OSError or of a JSON error inside a refusal,
-- `guess_intent`, and all the other parts of the program: the generation of series, the servers'
-- sockets and threads, the renderers.
pub mod Base
pub mod Exec
pub mod Helm
pub mod Json
pub mod Selectors
pub mod Artifacts
pub mod Mutations
pub mod MutationsLoader
pub mod OpsParse
pub mod Redaction
pub mod ArgvSafety
pub mod OtelStream
pub mod Topology
pub mod Traces
pub mod Combine
pub mod KubeApi
