-- ===== src/Effects.antt =====
-- What the client's asynchronous functions do: return, throw, or wait for ever; and the browser,
-- the Freighter extension, the Soroban RPC server and the API that they talk to.
pub mod Errors
pub mod Sync
pub mod Json
pub mod Io
pub mod Browser
pub mod Safe
pub mod Lift
pub mod Steady
