-- ===== src/Rebalancer.antt =====
-- rebalancer/src/: the orders that lead from current positions to target weights.
pub mod Diff
