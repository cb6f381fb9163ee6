-- ===== src/Lib.antt =====
-- Dynamic configuration for Kubernetes: a model of the decisions that its four programs take.
--
-- The programs. The webhook (dynamic-config-webhook) reads the annotations of a pod and the defaults of
-- the installation, and puts an agent into the pod. The agent (dynamic-config-agent) fetches the pod's
-- document from a store, renders it into files, and keeps the files current until the pod ends. The node
-- agent (dynamic-config-node-agent) does the same for the pods of a node, and shares one watch between
-- those that read the same document. The operator (dynamic-config-operator) reconciles `Render`
-- resources, one replica at a time, which a lease decides.
--
-- The files, by the code they model (paths from the repository's root):
--   Prelude      Lists, options, results, the `?` of fallible code, and the string functions of the
--                standard library that the code calls; a string is its list of characters.
--   Json         `serde_json::Value` as the code reads it: pointers, tables and arrays.
--   NodeAgent    dynamic-config-node-agent/src. Registry is shared.rs: `claim`, `release`, `readers` and
--                `counts` on an association list; a stop channel is a number, and the channels that were
--                told to stop are a list. Registry/History is the specification: a list of calls.
--                Volume is `parse` of publish.rs: the attributes of a volume become a command line, which
--                `from_args` of the agent reads; Volume/Inside says where its file stands, and
--                Volume/Watches that it is watched.
--   Operator     dynamic-config-operator/src/election.rs. Election: `claim` as a read, a decision
--                (`request`) and a write (`send`), and the two loops of `lead` over the answers that they
--                get. Election/Fence states what the API server is relied on for, as a record of laws
--                that Election/SampleServer fills: a write at a version that is no longer the current
--                one is refused. Times are nanoseconds.
--   Agent        dynamic-config-agent/src. Metrics (metrics.rs) has every counter as one record, the
--                readiness and the routes of `serve`; Histogram is the second half of that file; Canary is
--                canary.rs. Files and Publishing are `publish` of sidecar.rs with the writes of render.rs;
--                Sidecar is the loop of `run_from`: a state, and `step`, one arm of the `select!` for each
--                event. Sidecar/Outside runs it over a list of events; Sidecar/Start is the first fetch.
--                The disk is a list of paths. What stands in hidden files beside an output is apart from
--                it: the generations that were kept and the descriptions are lists of their own, which
--                Publishing/Traces follows path by path; scratch files, which a rename ends, are left out.
--                Arguments is spec.rs: `from_args` with every flag, and its checks of stores and of their
--                authentication. Rendering is render.rs, from `render` to `render_all`; Formats, Flat and
--                Base64 are its formats, its flat emitters with the entries of an environment, and its
--                codec. Notify is the endpoint of notify.rs. Rendering/Confined puts the three together:
--                the command line gives the specification, whose rendering the loop publishes.
--   Webhook      dynamic-config-webhook/src/annotations.rs. Userinfo is `without_userinfo`; Contract the
--                table of annotations with its deprecations; Quantities the parsers of quantities, modes
--                and ids; Scopes is `ScopedNames`, the gates by namespace; EnvEntries is `env_entries`;
--                Knobs is `KnobDefaults::set`; Installation is `from_lookup` and, in Tiers, the readers
--                that decide which tier of defaults answers and whether its answer is a pin. Refusals has
--                a constructor for each sentence of a refusal. Classes is src/classes.rs: the lists of classes,
--                and what a pod finds under a name. Pod is `of_pod_with`, from the annotations of a pod to
--                the request or the first refusal, with `extra_render` in Pod/Named: Reading has the pins
--                and the tiers, Store how a store is reached, Sidecar the agent's container, Around what
--                the agent does around a render, Containers the containers that a pod names. Pod/Stages
--                names what an admitted request has passed, for the proofs; Pod/Fitting says which
--                containers of the pod a request may name, and Pod/Prevails what a pinned address does;
--                Pod/Handover puts the webhook before the agent: a file mode as one writes it and the
--                other reads it.
--
-- Numbers are natural numbers; `u64` counters wrap at 2 ^ 64, parsed numbers are bounded by the width of
-- their type, the `i32` of a lease's transitions is its bit pattern, and a difference of times stops at zero where the code saturates. Every loop is structural
-- recursion on the list that the code walks, so that no fuel is needed.
--
-- What comes from outside is an argument: the answers of the API server and of the stores, the clock,
-- which writes work, the hash functions of the sha2 crate, and the environment as a function from names
-- to values. An event of the agent's loop carries those answers; the order of events is free, as it is in
-- the code. The loop takes rendering as a function, which `render_all` of Rendering fills; the parsers,
-- printers, the template engine and the schema validator that rendering calls are crates of others, and
-- are fields of one record, `Engine`.
--
-- Not modelled: the text of messages, logs and expositions; sockets, TLS and gRPC; the pacing of polls and
-- renewals, which the dynamic-config crate decides; file permissions beyond the mode that a write asks
-- for; names and pruning of the history, and a crash between a scratch file and its rename; the filters of a template; the clients of the stores (sources.rs), the
-- events and the digests of mounted certificates (trust.rs); the patches, the certificates and the server
-- of the webhook; the resources of the operator; the CSI calls of the node agent;
-- telemetry. A path's directory is compared by its text, doubled and trailing slashes apart.
mod Prelude
mod Json
pub mod NodeAgent
pub mod Operator
pub mod Agent
pub mod Webhook
