-- ===== src/Bench.antt =====
-- internal/bench: the benchmark's grader.
pub mod Grader
mod Tests
