-- ===== src/NodeServer.antt =====
-- internal/grpc/server.go: the calls that the node agents make. The log stream is left out.
pub mod Handlers
pub mod Soundness
pub mod Registration
pub mod Transitions
pub mod Changes
