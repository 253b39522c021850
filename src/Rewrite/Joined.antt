-- ===== src/Rewrite/Joined.antt =====
-- What the comparisons that the rewriter joins mean.
pub mod Any
pub mod All
