-- ===== src/Tests.antt =====
-- Concrete runs: each property applied to tables on which its hypotheses hold.
pub mod Data
pub mod CheckRuns
pub mod AchRuns
pub mod ReviewRuns
pub mod OtherRuns
pub mod IssuingRuns
pub mod AuthRuns
pub mod FileRuns
pub mod WebRuns
pub mod AuditRuns
pub mod LoginRuns
pub mod AccountRuns
