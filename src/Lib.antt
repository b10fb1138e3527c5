-- ===== src/Lib.antt =====
-- A verification library for the OpenSearch Kubernetes operator: the reconcilers that move nodes, those
-- of the objects in OpenSearch, the security configuration, and the admission of clusters.
--
-- The program. A run of the operator reads a cluster object and calls one reconciler after the
-- other. Three of them take nodes away from a running OpenSearch cluster, and these are modelled: the
-- scaler (opensearch-operator/pkg/reconcilers/scaler.go), which grows and shrinks node pools, the
-- upgrade (pkg/reconcilers/upgrade.go), and the rolling restart (pkg/reconcilers/rollingRestart.go).
-- Before a node goes they ask the gateway (opensearch-gateway/services/os_data_service.go) whether
-- the cluster can lose it, keep shards away from it by a list of excluded names, and remember the
-- phase that they are in as component statuses in the status of the cluster object. Apart from them
-- the reconcilers of roles, tenants, action groups, users and role bindings are modelled, which keep an
-- object of OpenSearch equal to a Kubernetes object, and the security configuration, which generates a
-- secret with files and runs a job that applies them. A webhook checks a cluster before all of that.
--
-- The model. Go functions that talk to the APIs are actions (Exec): functions from a world to a
-- world and a value or an error. The world is the history of all calls so far, newest first, and the
-- slice of component statuses of the object that the reconciler holds, which one closure shares and
-- changes in place. What an API answers is a function of the history (Services), so it may change
-- between two calls and may fail at any of them; nothing else is assumed of it except where a
-- theorem says so. A Go panic is an error that no handler catches. Exec.Emits bounds what an action
-- may write, Exec.Adds how often, and Exec.Returns what holds of the value that it returns;
-- Exec.Yields says that it does return one.
--
-- The files (paths below opensearch-operator/):
--   Prelude, Text: shared names, int32 with its wrap-around, Go's text functions and their laws
--   Api: the data of api/opensearch.org/v1 and opensearch-gateway/responses
--   Exec, Services: actions, the two clients, and the retries of pkg/reconcilers/k8s/client.go
--   Helpers: pkg/helpers (statuses, roles, pods, slices; Security is what they say of TLS, versions and
--     names) and some names of pkg/builders/cluster.go
--   Gateway: opensearch-gateway/services/os_data_service.go
--     (Settings, Exclusion, Shards, Health, Prepare; Writes says what these may write)
--   Util: pkg/reconcilers/util/util.go (DataNodesCount, CleanStaleExclusionList)
--   Combined: pkg/reconciler/result.go
--   Scaler: Node is one step on a node, Pool is reconcileNodePool, Run is Reconcile
--   Upgrade: Version is validateUpgrade, Pick the choice of the pool, Pool its step, Run is Reconcile
--   Restart: Candidates and their order, Pod is restartSpecificPod, Run is Reconcile
--   Objects: the calls of opensearch-gateway/services/os_security_service.go; Managed is the program
--     of pkg/reconcilers/role.go, tenant.go and actiongroup.go, User is users.go, Binding is
--     userrolebinding.go; Finish is the way they end
--   SecurityConfig: pkg/reconcilers/securityconfig.go; Secrets are the helpers that make its secrets,
--     Command is BuildCmdArg with the checksum and the mounts, Retry the count, the time and the delay
--     of retries, Update the job, and Reconcile the whole
--   Webhook: webhook/opensearch_cluster_webhook.go; Unique, Admits and Storage are its three checks
--   Tests: the results at concrete inputs
-- A function keeps its Go name, in small letters with underscores; a loop is a function beside it
-- whose name ends in _from, or says what the loop looks for.
--
-- Bounds. retry.RetryOnConflict with DefaultRetry makes five tries: the number 4 of on_conflict and
-- of write_conditions counts those after the first. Printing a number runs on fuel of that number
-- plus one, more than its digits. int32 sums wrap as in Go; time is whole seconds. The count of retries
-- is an int of 64 bits, with its wrap-around in next_count.
--
-- Not modelled: logs, events for the recorder, metrics, and the contents of pods and of
-- StatefulSets beyond replicas and revisions. sort.Slice is sorting by insertion, which is one order
-- that it may give. Go's iteration over a map of indices is the order of a list. The library for
-- semantic versions is a parameter, as are the decoder of an answer and cmp.Equal. For the security
-- configuration the layouts of time.Format and time.Parse, sha1, bcrypt and YAML are parameters. The
-- other reconcilers, TLS, the migration, the webhooks of other objects than clusters and the generic
-- resource reconciler are outside of this library.
pub mod Prelude
pub mod Text
pub mod Api
pub mod Exec
pub mod SecurityConfig
pub mod Services
pub mod Helpers
pub mod Objects
pub mod Gateway
pub mod Util
pub mod Combined
pub mod Scaler
pub mod Upgrade
pub mod Restart
pub mod Tests
pub mod Webhook
