-- ===== src/Nats.antt =====
-- pkg/drivers/nats: the backend over a NATS key-value bucket.
pub mod Codec
pub mod Index
pub mod History
pub mod Bucket
pub mod Store
pub mod Backend
pub mod Watching
