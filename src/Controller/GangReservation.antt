-- ===== src/Controller/GangReservation.antt =====
-- internal/controller/vgpugangreservation_reconciler.go: the reservation of a gang, from its first
-- reconcile to its teardown.
pub mod Children
pub mod Phases
pub mod Teardown
pub mod Reconcile
pub mod Counts
pub mod Moves
pub mod Stores
pub mod Lifecycle
pub mod Losses
pub mod Progress
