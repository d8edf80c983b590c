-- ===== src/PodController.antt =====
-- controllers/pod_controller.go
pub mod Allocation
pub mod WellFormed
pub mod Ensure
pub mod Choice
pub mod Deallocate
pub mod Undo
pub mod Allocate
pub mod Closing
pub mod Served
pub mod Done
pub mod Reconcile
pub mod Wants
pub mod Writes
pub mod Sending
pub mod Deletion
