-- ===== src/Rpc.antt =====
-- packages/rpc/src: the JSON-RPC client between the editor and the engine.
pub mod Framing
pub mod Client
