-- ===== src/Examples.antt =====
-- Concrete runs of the definitions, and the results at concrete inputs.
mod Plans
mod Execution
mod Machine
mod Session
mod React
mod Longterm
mod Graph
mod Llm
mod Messages
mod Provider
