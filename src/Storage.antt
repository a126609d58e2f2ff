-- ===== src/Storage.antt =====
-- packages/types/src/index.ts, `StorageBackend`: an object store with compare-and-set, over an
-- unknown state. What other clients do between two calls is part of that state.
pub mod Memory
pub mod Journal
pub mod Throttled
pub mod S3
pub mod Gcs
use osqueue.Base.{ℕ, String, Option}
use osqueue.Types.{StorageVersion, QueueState}
use osqueue.Types.Errors.{Result}

pub record StorageReadResult (Bytes : Type 0) : Type 0 where
  pub bytes : Bytes
  pub version : StorageVersion

pub record StorageBackend (Bytes : Type 0) : Type 1 where
  pub State : Type 0
  pub read : String → State → Result (Option (StorageReadResult Bytes)) × State
  pub write : String → Bytes → StorageVersion → State → Result StorageVersion × State
  pub create_if_not_exists : String → Bytes → State → Result StorageVersion × State
