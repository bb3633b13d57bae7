-- ===== src/Types/Device.antt =====
-- frontend/client/src/types.ts, sessions, paired devices, their jobs and project sources.
use v.Prelude.{ℕ, String, List, Option, Bool}
use v.Js.{Fields}

pub record AuthUser : Type 0 where
  pub id : String
  pub github_id : String
  pub login : String
  pub email : Option String
  pub avatar_url : Option String
  pub created_at : String

pub record AuthStatus : Type 0 where
  pub authenticated : Bool
  pub user : Option AuthUser
  pub github_configured : Bool

pub data DeviceStatus : Type 0 where
  online offline revoked : DeviceStatus

pub record LocalRepositoryInventory : Type 0 where
  pub repository_url : String
  pub branch : String
  pub commit_sha : String
  pub dirty : Bool
  pub tracked_files : ℕ
  pub workspace_fingerprint : String

pub record ProjectDevice : Type 0 where
  pub id : String
  pub project_id : String
  pub owner_user_id : String
  pub name : String
  pub status : DeviceStatus
  pub runtime_version : String
  pub capabilities : List String
  pub inventory : Option LocalRepositoryInventory
  pub last_seen_at : Option String
  pub last_synced_at : Option String
  pub created_at : String
  pub revoked_at : Option String

pub record GraphitiEpisodeEnvelope : Type 0 where
  pub episode_id : String
  pub group_id : String
  pub name : String
  pub content : String
  pub source : String
  pub source_run_id : Option String
  pub source_commit_sha : Option String
  pub occurred_at : String

pub data DeviceJobType : Type 0 where
  find_symbol find_references index_workspace retrieve_project_memory : DeviceJobType
  refresh_workspace_index list_workspace_files search_workspace_text : DeviceJobType
  read_file_range apply_unified_patch run_test_profile : DeviceJobType
  git_status git_diff git_commit git_push : DeviceJobType

pub data DeviceJobStatus : Type 0 where
  pending_approval queued leased completed failed expired cancelled : DeviceJobStatus

pub record DeviceJob : Type 0 where
  pub id : String
  pub project_id : String
  pub device_id : String
  pub creator_user_id : String
  pub type : DeviceJobType
  pub payload : Fields
  pub status : DeviceJobStatus
  pub expires_at : String
  pub approved_at : Option String
  pub approved_by_user_id : Option String
  pub lease_expires_at : Option String
  pub result : Option Fields
  pub error : Option String
  pub created_at : String
  pub completed_at : Option String

pub data ProjectSourceKind : Type 0 where
  paired_local github_repository : ProjectSourceKind

pub record LocalWorkspace : Type 0 where
  pub id : String
  pub project_id : String
  pub device_id : String
  pub display_name : String
  pub workspace_key : String
  pub inventory : LocalRepositoryInventory
  pub index_revision : ℕ
  pub indexed_at : String
  pub created_at : String
  pub updated_at : String

pub record ProjectSource : Type 0 where
  pub project_id : String
  pub kind : ProjectSourceKind
  pub local_workspace_id : Option String
  pub repository_url : Option String
  pub ref : Option String
  pub selected_at : String
  pub selected_by_user_id : Option String
