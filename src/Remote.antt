-- ===== src/Remote.antt =====
-- src/remote_config.rs: the polling of a configuration from a server.
pub mod Http
pub mod Poller
pub mod Authority
