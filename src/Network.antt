-- ===== src/Network.antt =====
-- The network modules: the proxy settings, the queue of sensor events, and Home Assistant.
pub mod Proxy
pub mod Queue
pub mod HomeAssistant
pub mod Websocket
