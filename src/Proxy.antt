-- ===== src/Proxy.antt =====
-- thoughtgate-proxy/src/mcp_handler: what the proxy answers to the methods that it serves itself.
pub mod TaskMethods
pub mod Mcp
