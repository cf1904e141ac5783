-- ===== src/Eval.antt =====
-- internal/eval: the scoring of the evaluation harness and the gates on its metrics. Metrics are
-- numbers of `Scores`, as in internal/search. The reports are not here.
pub mod Discovery
pub mod Gate
pub mod Invocation
pub mod Dataset
pub mod Corpus
mod Tests
