-- ===== src/Container/Cleanup.antt =====
-- internal/smoke/container.go: what a Down that reports no error leaves.
use mcp_library.Common.Text.{Text}
use mcp_library.Container.Stack.{Stack}
