-- ===== src/Data.antt =====
-- What the repositories of backend/app/data share: the exceptions and the allocation of ids.
pub mod Errors
pub mod RecordId
pub mod Json
