-- ===== src/Controller.antt =====
-- internal/controller: the reconcilers of the custom resources.
pub mod GangReservation
pub mod SliceLifecycle
mod Examples
