-- ===== src/Bridge.antt =====
-- The class `Bridge` of can-tcp-bridge/can-tcp-bridge-server/can_tcp_bridge.py, one module for each
-- of its loops, one for its connections and one for its start and end, and the merge of `load_config`.
-- A loop is a function of the outcomes of its blocking calls, one entry for each round.
pub mod Inbound
pub mod Outbound
pub mod Wire
pub mod Delivery
pub mod EndToEnd
pub mod Link
pub mod Threads
pub mod Process
pub mod Config
