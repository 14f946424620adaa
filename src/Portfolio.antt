-- ===== src/Portfolio.antt =====
-- src/portfolio/: what the portfolio is built from.
pub mod CostModel
pub mod Position
