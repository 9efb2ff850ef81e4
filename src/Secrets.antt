-- ===== src/Secrets.antt =====
-- pkg/secrets: secrets from several backends. Store is the manager of store.go over the interface of a
-- backend, EnvBackend the backend on environment variables.
pub mod Store
pub mod EnvBackend
pub mod FileBackend
pub mod FileLaws
pub mod FileReads
pub mod FileRefine
pub mod FileTests
pub mod FileView
pub mod MasterKey
pub mod MasterKeyLaws
pub mod MasterKeyTests
pub mod StoreLaws
pub mod Tests
