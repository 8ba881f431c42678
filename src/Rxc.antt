-- ===== src/Rxc.antt =====
-- rxc: back-pressured pipelines of one source and one sink. rxc/src/logic.c is Connection,
-- rxc/src/pipeline.c and rxc/src/schedulers/trampoline.c are Pipeline, rxc/src/ops is
-- Ops; Trampoline is the queue of trampoline.c in memory, and Stages are the structures of
-- pipeline.c and ops in memory.
pub mod Long
pub mod Connection
pub mod Pipeline
pub mod Ops
pub mod Trampoline
pub mod Stages
