-- ===== src/Review.antt =====
-- The review of exceptions, src/pospay/services: default dispositions and deadlines, the queue, the
-- decisions of makers and checkers, and the automatic decisions after a deadline.
pub mod Disposition
pub mod Record
pub mod Decide
pub mod AutoDecide
pub mod Queue
