-- ===== src/Lib.antt =====
-- vgpu_scheduler: a Kubernetes scheduler for slices of GPU memory (VRAM), written in Go.
--
-- A claim asks for a number of bytes. The controllers make a VGPUSlice of it, the scheduler picks a
-- node, reserves the bytes in its in-memory cache and binds the slice, and the node's agent allocates
-- them on a device. Admission webhooks validate the objects, and a recommendation policy corrects
-- requests that are too small. Quotas, gangs and preemption restrict the placement.
--
-- Prelude: Go's `(value, error)` results, its maps as association lists, its sorts, int64 sums that may
-- be negative, and the Boolean tests.
-- Api (api/v1alpha1): the fields of VGPUSlice, VGPUClaim and VGPUJob that the code reads.
-- Cache (internal/scheduler/cache.go): the record VramCache is VRAMCache without its mutex, and each
-- method is a function of the same name from the old cache to the new one. Cache.Calls has the methods
-- as calls and histories of calls in the order in which they take the lock; Cache.Holds, Ledger,
-- Accounts, Nodes and Histories compare the nodes' reserved bytes with the holds on them; Cache.Once
-- and Cache.Reaper are about the guarded methods and the reaper.
-- Scheduler (internal/scheduler): Filter (filter.go), Score (score.go), Reserve (reserve.go), Quota
-- (quota.go), Preemptor (preemptor.go) and Plugin (plugin.go). `schedule` is one cycle of Schedule; the
-- record Answers has what the API server, the gang gate and the preemptor say to it, and lists of
-- calls that other goroutines make on the cache while it waits. Gang (gang.go) is the gate with its
-- cohorts and its admission slot; a cycle takes its verdict as an answer.
-- Scheduler.PriorityQueue (internal/scheduler/priorityqueue): the work queue, with each method as one
-- critical section and the heap as a collection from which the least item is taken.
-- State (internal/state): the transitions and the checks of a slice's phases.
-- Security (internal/security/policy.go): the validation of a pod.
-- Recommendation (internal/recommendation/policy.go and the formulas of
-- api/v1alpha1/vgpuworkloadprofile_types.go).
-- Nodeagent.Allocator (internal/nodeagent/nvml/allocator.go): the agent's choice of a card and its
-- ledger of promised bytes; the ID of an allocation is an argument that no earlier one has.
-- Nodeagent.Violation (internal/nodeagent/violation.go), Nodeagent.SliceViolation (slice_violation.go
-- beside it) and Nodeagent.Enforcement (enforcement.go and the cycle of slice_violation.go): the
-- detectors of cards and slices that use more than their grants, and what is done about slices. What
-- is done to the cluster is the list of actions of a cycle.
-- Nodeagent.Checkpoint (internal/nodeagent/checkpoint), Nodeagent.Manager (internal/nodeagent/manager.go
-- and reporter.go) and Nodeagent.Drift (internal/nodeagent/drift): the file of the node's
-- allocations, what the agent does about a slice, on the ledger of Nodeagent.Allocator, and the check
-- of the file at its start. A file that is written is read back as it was written; the CDI specs are a
-- map from the allocation to its card.
-- Controller.GangReservation (internal/controller/vgpugangreservation_reconciler.go): `reconcile` is one
-- Reconcile; the record Answers has the children as each of its reads sees them and the attempts of
-- the status write, and the record Outcome what is deleted, stored and returned.
-- Controller.SliceLifecycle (internal/controller/vgpuslice_reconciler.go): `reconcile_slice` is one
-- Reconcile of a slice that is there, with its writes as a list.
-- Cmd.Scheduler (cmd/scheduler/main.go): Nodes has the node reconciler, the seeding of the cache and the
-- janitor, Slices the slice reconciler around the cycle of Scheduler.Plugin, and Priorities the
-- priorities of the work queue. They call the cache of Cache.
-- Webhook (internal/webhook): Claims (validating_vgpuclaim.go and its handler in
-- webhook_handlers.go), Gangs (validating_gangjob.go, gangjob_validator_handler.go), Jobs
-- (validating_vgpujob.go) and Resizer (mutating_vgpujob.go). The pod mutator is not modelled.
--
-- Numbers: byte counts, priorities and periods are natural numbers, as the schemas of the custom
-- resources keep them from being negative; a subtraction that the code floors at 0 is `-` on ℕ. Sums
-- of bytes stay below 2^63, some nine million terabytes, so no int64 wraps. Scores may be
-- negative and are integers. The clock is an argument, in seconds, and in milliseconds in Cmd.Scheduler.Slices. Loops run over lists and maps and are
-- structural recursion, so nothing needs fuel; a write that the code retries on a conflict has the list
-- of its attempts. A map is an association list; where Go
-- iterates over a map, the order of the list stands for one of the orders that Go may take. Go's
-- sort.Slice is a stable insertion sort here, one of the results that it may give.
--
-- Each API call is an answer given as an argument. Metrics, tracing, logs and message texts are left
-- out. The controllers of claims, jobs, gang jobs, quotas and workload profiles, the node agent's
-- monitors and hardware drivers, the other commands and the generated deep copies are not modelled.
pub mod Prelude
pub mod Api
pub mod Cache
pub mod State
pub mod Scheduler
pub mod Security
pub mod Recommendation
pub mod Webhook
pub mod Nodeagent
pub mod Controller
pub mod Cmd
