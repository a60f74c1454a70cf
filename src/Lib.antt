-- ===== src/Lib.antt =====
-- The llm-d batch gateway operator: a Kubernetes operator that renders two Helm charts, the batch
-- gateway and the llm-d-async dispatcher, for each LLMBatchGateway resource, and keeps the cluster at
-- what they render.
--
-- Parts and how they interact. One reconcile (internal/controller/llmbatchgateway_controller.go) reads
-- the resource, validates its spec, resolves the credentials Secret (secret_sync.go), renders both
-- charts from Helm values (helm.go, helm_batch.go, helm_async.go), applies every object, deletes what
-- is no longer rendered, and writes the status (statuspatch.go). Events on Secrets and ReferenceGrants
-- start it again (secret_watch_filter.go, SetupWithManager). Before that, cmd/main.go reads the
-- environment, resolves the cluster's TLS profile once (internal/tls), and hands it to the operator's
-- own servers and to the charts' values; a second controller (internal/monitoring) applies the
-- Service, the ServiceMonitor and the PrometheusRule of the operator's metrics. When the cluster's
-- TLS profile changes, a watcher stops the process, and the next start resolves it again.
--
-- Which file models what:
--   Api         the spec and status structs of api/v1alpha1, one record each, a pointer or a nil slice
--               that the code tells apart as an Option, a map as an association list
--   Queues      queue names and dispatcher queues of helm_async.go; Models and Names prove that they
--               depend on the map alone and have the published names
--   Validate    validateSpec and what it calls; Rules states what a valid spec is, Loops, Parts and
--               Decides prove that the code decides it, Guarantees what follows for the dispatcher
--   Value       Helm values: maps, lists and scalars, with the functions of helm.go that fill them
--   Helm        splitImage (Images), the async chart's values (Async, AsyncTransport), the batch
--               chart's (Batch and its children), the rendering of a chart (Render), and what the two
--               charts agree on (Transport, Accepted, Agreement, QueueUrls)
--   Tls         internal/tls/profile.go: its types (Tls), the loop over the ciphers (Ciphers), the
--               conversion of a profile (Conversion), the resolution against the cluster with the
--               function that configures a server (Resolve) and the watcher (Watcher); Accounting,
--               Usable, Outcome and Following hold the proofs
--   Utils       internal/utils: the test whether a kind is installed, and the sources of a controller's
--               events; Installed has the proofs
--   Monitoring  internal/monitoring: the objects it creates (Resources), its reconcile (Reconcile) and
--               its watches (Registration); Order, Wakes and Selection hold the proofs
--   Startup     cmd: the images from the environment and the options of the metrics server (Startup,
--               proofs in Environment and Server) and main (Main); Plan is the order of a start as a
--               step relation, Order, Readiness and Refinement prove that main follows it, Rendering
--               composes a start with the rendering of both charts
--   Controller  Errors, Objects (owners and keys), Rollout and Availability (replica counts), Grants
--               and Secrets (resolveSecret and what it calls), SecretFilter and Watch, Conditions and
--               Status (updateStatus, recordFailure), Orphans (deleteOrphanedResources), Reconcile
--               (reconcile and failRender), Traces (sequences of calls), Registration (the watches of
--               SetupWithManager), with Ownership and Tracked for its proofs, and
--               Reconcile/Rotation for sequences of reconciles
--   Prelude     lists, tests, association lists, integers over the native numbers, sorting
--   Examples    a concrete resource and cluster, on which the theorems are used
--
-- State and calls. The API server is not part of the repository: it is a record of arbitrary functions on
-- an arbitrary state (Controller.Cluster), so that any answer and any change by others between two
-- calls is allowed. An action takes a state to a result and a state, which records each call with its
-- answer, the latest first. SetControllerReference, Helm's engine, the YAML decoder, json.Unmarshal,
-- crypto/tls, the OpenShift TLS library and the controller manager are parameters. The list of
-- conditions is an interface with the documented laws of meta.SetStatusCondition and
-- meta.FindStatusCondition. Errors and condition messages are
-- constructors with the values that their texts print.
--
-- Bounds and fuel: every loop of the code runs over a list or a map and is structural recursion here;
-- there is no fuel. A Go map is a list of entries in the order in which a range loop meets them; the
-- hypothesis HasDistinctKeys says that no key stands in it twice. The int32 and int64 fields are ℤ:
-- the code compares and copies them, and computes nothing from them.
--
-- Not modelled: logging, metrics' counters beyond the label of a failure, the deadline of a context
-- (each call may fail with any error), the loading of a chart from disk, the parsing of flags and the
-- registration of schemes, the work of the libraries named above, the generated deep copies, and the
-- tests.
pub mod Prelude
pub mod Api
pub mod Value
pub mod Queues
pub mod Validate
pub mod Tls
pub mod Helm
pub mod Controller
pub mod Utils
pub mod Monitoring
pub mod Startup
pub mod Examples
