-- ===== src/Operator.antt =====
-- dynamic-config-operator: the reconciler's leader election.
pub mod Election
