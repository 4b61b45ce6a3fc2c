-- ===== src/ControlPlane.antt =====
-- packages/multi-agent-runtime/src/control-plane: the agents' backends and what is claimed of them.
pub mod Governance
pub mod Supervisor
