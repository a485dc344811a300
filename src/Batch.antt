-- ===== src/Batch.antt =====
-- errander/agent/graph.py: the batch graph, from the approval of a plan to its last wave.
pub mod State
pub mod Gate
pub mod Front
pub mod Dispatch
pub mod Waves
