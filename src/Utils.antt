-- ===== src/Utils.antt =====
-- src/utils: the amounts of a tranche and the rolling average of the fees.
pub mod Math
pub mod RollingAverage
pub mod FeeMetrics
