-- ===== src/Process.antt =====
-- pkg/process/manager.go: the processes of local MCP servers. Manager has the table and its operations,
-- Shutdown the escalation that ends one process.
pub mod Manager
pub mod Shutdown
pub mod ManagerLaws
pub mod Tests
