-- ===== src/PhotoService.antt =====
-- Package `photos` (internal/photos/service.go): the uploads of a photo, and the queue of the workers
-- that derive its display and thumbnail images.
pub mod Uploads
pub mod Queue
