-- ===== src/Uploader.antt =====
-- uploader/: the client that sends a local report to the service.
pub mod Timestamp
pub mod Response
pub mod Hostname
pub mod Endpoint
pub mod Transport
pub mod LocalReport
pub mod Upload
