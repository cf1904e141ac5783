-- ===== src/Broker.antt =====
-- internal/broker: the broker seam, its caching decorator, the catalog-backed broker and the live
-- one.
pub mod Cache
pub mod Refs
pub mod Budget
pub mod Reply
pub mod Call
pub mod Find
pub mod Skeleton
use ozy.Contract.{Error}

-- What a broker operation returns: a result, the nil pointer with no error, a failure, or a panic
-- (a failed type assertion).
pub data Answer {ℓ} (A : Type ℓ) : Type ℓ where
  done : A → Answer A
  nothing : Answer A
  failed : Error → Answer A
  panicked : Answer A
