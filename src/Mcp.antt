-- ===== src/Mcp.antt =====
-- The MCP runtime: its cache of capability tokens.
pub mod TokenCache
