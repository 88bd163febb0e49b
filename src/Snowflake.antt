-- ===== src/Snowflake.antt =====
-- The snowflake method: the literals of backend/app/domain_models/snowflake.py. The children are the
-- steps and their dependencies (backend/app/snowflake/step_spec.py and dependencies.py), the records
-- of steps 6 to 9 (backend/app/data/repositories/snowflake_records.py), and the artifacts with their
-- decision (repositories/snowflake.py, transactions/snowflake.py).
pub mod Steps
pub mod Dependencies
pub mod Records
pub mod Artifacts
pub mod RecordFlow
use ai_writing.Common.{Eq}

-- `SnowflakeRevisionSource`
pub data Source : Type 0 where
  human ai legacy import_source restore derived : Source

unfoldable pub Source-discrete : Discrete Source
Source-discrete = hlevel

instance abbrev pub source_eq : Eq Source
source_eq = record { dec = Source-discrete }

-- `SnowflakeRevisionStatus`
pub data RevisionStatus : Type 0 where
  draft pending_review accepted rejected superseded legacy_draft : RevisionStatus

unfoldable pub RevisionStatus-discrete : Discrete RevisionStatus
RevisionStatus-discrete = hlevel

instance abbrev pub revision_status_eq : Eq RevisionStatus
revision_status_eq = record { dec = RevisionStatus-discrete }

-- `SnowflakeRecordState`
pub data RecordState : Type 0 where
  draft pending_review approved stale : RecordState

-- `SnowflakeDecision`
pub data Decision : Type 0 where
  accepted rejected : Decision
