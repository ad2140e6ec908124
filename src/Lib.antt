-- ===== src/Lib.antt =====
-- The Aerospike CE Kubernetes operator: a model of the parts of its reconciler that decide which
-- pods are restarted, when, and how, how many there are, which volume claims are deleted, and who has
-- access, and what these parts guarantee.
--
-- The program. A reconcile of an AerospikeCluster compares the pods of each rack with the template
-- of the rack's StatefulSet. A rack's pass (`reconcileRollingRestart`) selects the pods that carry
-- other hashes, waits until the previous batch is back (`isBatchBlocked`), and takes the next batch:
-- first as a two-phase commit of the changed parameters to the running nodes
-- (`tryDynamicConfigUpdateBatch`, on the difference that internal/configdiff computes), else pod by
-- pod, warm (SIGUSR1) or cold (a deletion). An on-demand operation (`reconcileOperations`) restarts
-- pods by the same guard, and keeps its progress in the resource's status. Before all that, the rack's
-- StatefulSet is brought to the rack's size (`reconcileStatefulSet`), one batch of a scale-down in a
-- pass and only while no data migrates (`isMigrationInProgress`); claims above the count are reclaimed
-- (`reclaimOrphanedRackPVCs`), and racks that left the specification are drained and torn down
-- (`cleanupRemovedRacks`). Roles and users are synchronised with the nodes (`reconcileACL`).
--
-- The files, and the code that they are about:
--   Cluster, Pod       the fields of the resource and of a pod that are read: api/v1alpha1,
--                      internal/controller/reconciler_status.go, reconciler_readiness_gate.go
--   Env                the outside: API server, nodes and deadlines, as a function from the log of
--                      requests to the next reply; an operation of the code that has effects is an
--                      action on that log (`Action`), composed by do blocks
--   Storage            internal/storage/policy.go and the cascading volumes of internal/storage/pvc.go
--   Claims             the names, owners and deletion of claims, internal/storage/pvc.go, and their
--                      reclamation in internal/controller/reconciler_statefulset.go (Reclaim)
--   Scaling            internal/controller/reconciler_statefulset.go: the pass over a StatefulSet, its
--                      batches (Steps), removed racks (Removed); the rack sizes of reconciler.go (Racks)
--   Migration          internal/controller/aero_info.go, reconciler_scaledown.go
--   Privilege, Access  internal/controller/reconciler_acl.go, retry.go, internal/utils/acl.go; what the
--                      synchronisation makes of a role of the server (Converge.Server)
--   ConfigMerge        internal/utils/merge.go
--   ConfigDiff         internal/configdiff/diff.go, dynamic_params.go
--   DynamicConfig      internal/controller/reconciler_dynamic_config.go
--   Restart            internal/controller/reconciler_restart.go, reconciler_warm_restart.go: Sizes,
--                      Selection, InFlight, Budget, Block, PodRestart, Batch and Rolling, which
--                      composes them
--   Operations         internal/controller/reconciler_operations.go
--   Breaker            the circuit breaker of internal/controller/reconciler.go, pause_handler.go
--   Text, Prelude      the parts of Go's strings and strconv that are used, and the shared lemmas
--   Examples           the theorems at concrete inputs
-- A function of Go keeps its name, in snake case. A pointer is an `Option`, a map an association
-- list, a set the list of its names, an error a value.
--
-- Choices. Every loop is structural recursion on the list that it runs over, so there is no fuel, but
-- for the digits of a printed number, at most 19, which is enough below 10 ^ 19.
-- Counts and times are natural numbers, Go's signed settings are `ℤ` and their conversion to int32
-- wraps around (Prelude.Int). The names of a batch's pods are distinct in the API server, and the
-- theorems that need it say so. Replies are arbitrary: a theorem over an environment holds whatever
-- the API server and the nodes answer, and whenever a deadline passes. One value of the clock
-- (`Pass.now`) stands for the readings of it in a pass.
--
-- Parameters. `scaled` is GetScaledValueFromIntOrPercent of Kubernetes' intstr package, `format` is
-- Go's "%v", `node_of` is `findNodeForPod`, which asks the Aerospike client, `Numbers` compares the
-- numbers of a decoded configuration, `sorted` is sort.Strings, `transient` says which errors of the
-- Aerospike client are worth a retry. `FitsInt32` says of one setting at one total that what its
-- percentage scales to fits 32 bits, beyond which the conversion in `resolveIntOrPercent` wraps; the
-- webhook's bound of 100% gives it. `RoleOnServer` says what the server makes of accepted grants and
-- revocations.
--
-- Not modelled: events, metrics and logs; the reads of the API server, which are inputs; the order
-- in which the pods of a rack are listed; the stamps of storage hashes, but for which pods get one;
-- passwords; pod templates, which stand for their hashes; the work of the reconcile loop around the
-- parts above; the webhooks, the generation of configuration files, and the building of Kubernetes
-- objects.
mod Prelude
pub mod Text
pub mod Pod
pub mod Cluster
pub mod Env
pub mod Storage
pub mod ConfigDiff
pub mod Restart
pub mod DynamicConfig
pub mod Claims
pub mod Scaling
pub mod Migration
pub mod ConfigMerge
pub mod Privilege
pub mod Access
pub mod Operations
pub mod Breaker
pub mod Examples
