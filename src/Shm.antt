-- ===== src/Shm.antt =====
-- shm.go: the overlay of acknowledged writes over the physical image. `Extents` has the list of
-- extents and `Disk` the overlay with its operations.
pub mod Io
pub mod Extents
pub mod Disk
