-- ===== src/Longterm.antt =====
-- memory/longterm: the facts of MEMORY.md, and the graph of entities.
pub mod Facts
pub mod Pipeline
pub mod Graph
