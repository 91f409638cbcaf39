-- ===== src/Workspace/Integration/Outcomes.antt =====
-- What an integration of internal/workspace/integration.go guarantees, however it ends.
