-- ===== src/NodeAgent.antt =====
-- dynamic-config-node-agent: one agent per node, behind the CSI driver interface.
pub mod Registry
pub mod Volume
