-- ===== src/Storage/Repositories.antt =====
-- src/storage.rs: `CaptureRepository` and `MutationRepository` as the stores that the use cases take.
pub mod Once
use bif.Base.{Option}
use bif.Application.UseCases.{CaptureStore, MutationStore}
use bif.Storage.Codec.{SqliteError}
use bif.Storage.Db.{Db}
use bif.Storage.Session.{ReadStoreState}
use bif.Storage.Capture.{CaptureStorageError, capture_inner}
use bif.Storage.Capture as C
use bif.Storage.Mutate.{mutate}
use bif.Storage.Mutate as M

abbrev pub capture_repository :
    (C.Statement → Option SqliteError) → ReadStoreState → CaptureStore Db CaptureStorageError
capture_repository fault pinned = record {
  capture = λ request payload_hash actor execution occurred_at identity db.
      capture_inner fault pinned
        (record {
          request = request;
          payload_hash = payload_hash;
          actor = actor;
          execution = execution;
          occurred_at = occurred_at;
          identity = identity;
        })
        db;
}

abbrev pub mutation_repository :
    (M.Statement → Option SqliteError) → ReadStoreState → MutationStore Db SqliteError
mutation_repository fault pinned = record {
  mutate = λ request payload_hash actor execution occurred_at identity db.
      mutate fault pinned
        (record {
          request = request;
          payload_hash = payload_hash;
          actor = actor;
          execution = execution;
          occurred_at = occurred_at;
          identity = identity;
        })
        db;
}
