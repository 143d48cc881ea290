-- ===== src/Ws.antt =====
-- src/routes/websocket.rs: the protocol between the browser and the gateway.
pub mod Messages
pub mod State
pub mod Login
pub mod Registration
pub mod Connection
pub mod Guarded
pub mod Cases
pub mod Authenticated
pub mod Effects
pub mod Cleanup
pub mod Socket
