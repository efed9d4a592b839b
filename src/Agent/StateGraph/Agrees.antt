-- ===== src/Agent/StateGraph/Agrees.antt =====
-- The two drivers side by side: `run_state_graph` and `run_graph` of the same nodes.
