-- ===== src/Agent.antt =====
-- helpers/serial-agent: the remote process that owns one serial device and answers JSON requests.
pub mod Protocol
pub mod Serial
pub mod Stream
