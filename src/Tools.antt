-- ===== src/Tools.antt =====
-- tools/tool.go and tools/internals/plan.go: the tools that read and write plans.
pub mod Arguments
pub mod Plans
