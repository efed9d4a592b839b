-- ===== src/Agent.antt =====
-- backend/app/agents: the state that flows through the graph, VALIDATE's verdicts, and the driver
-- of the state machine.
pub mod State
pub mod Verdicts
pub mod Driver
pub mod StateGraph
mod Samples
