-- ===== src/Types/Project.antt =====
-- frontend/client/src/types.ts, the project canvas: modules, files, notes, tasks, markers.
use v.Prelude.{ℕ, String, List, Option, Bool}

pub data WorkspaceMarkerType : Type 0 where
  note task decision question error blocked running approval_required : WorkspaceMarkerType

pub data WorkspaceTaskStatus : Type 0 where
  backlog todo in_progress blocked done : WorkspaceTaskStatus
  clarifying ready working needs_you review deferred : WorkspaceTaskStatus

pub record WorkspaceProject : Type 0 where
  pub id : String
  pub name : String
  pub description : String
  pub created_at : String
  pub updated_at : String

-- A finite floating-point number, as the canvas positions are: ± mantissa * 2 ^ up / 2 ^ down. The
-- client passes these through and never computes with them.
pub record Double : Type 0 where
  pub negative : Bool
  pub mantissa : ℕ
  pub up : ℕ
  pub down : ℕ

pub record WorkspaceModule : Type 0 where
  pub id : String
  pub project_id : String
  pub title : String
  pub kind : String
  pub source_scope : String
  pub aliases : List String
  pub dependencies : List String
  pub position_x : Double
  pub position_y : Double
  pub status : String
  pub origin : String
  pub created_at : String
  pub updated_at : String

pub data FileKind : Type 0 where
  file directory : FileKind

pub record RepositoryFile : Type 0 where
  pub path : String
  pub kind : FileKind
  pub language : Option String
  pub size : Option ℕ

pub data Ecosystem : Type 0 where
  python node : Ecosystem

pub record RepositoryDependency : Type 0 where
  pub name : String
  pub ecosystem : Ecosystem
  pub version : String
  pub group : String

pub record RepositoryFileDependency : Type 0 where
  pub source_path : String
  pub target_path : String
  pub kind : String

pub record RepositoryIndex : Type 0 where
  pub project_id : String
  pub repository_url : String
  pub branch : String
  pub commit_sha : String
  pub indexed_at : String
  pub files_count : ℕ
  pub modules_count : ℕ
  pub dependencies : List RepositoryDependency
  pub file_dependencies : List RepositoryFileDependency

pub record WorkspaceNote : Type 0 where
  pub id : String
  pub project_id : String
  pub module_id : String
  pub title : String
  pub content : String
  pub kind : WorkspaceMarkerType
  pub author : String
  pub source_run_id : Option String
  pub created_at : String

pub data Priority : Type 0 where
  low medium high critical : Priority

pub record WorkspaceTask : Type 0 where
  pub id : String
  pub project_id : String
  pub module_id : String
  pub title : String
  pub description : String
  pub acceptance_criteria : List String
  pub status : WorkspaceTaskStatus
  pub priority : Priority
  pub source_run_id : Option String
  pub created_at : String
  pub updated_at : String

pub record WorkspaceMarker : Type 0 where
  pub id : String
  pub project_id : String
  pub module_id : String
  pub type : WorkspaceMarkerType
  pub title : String
  pub state : String
  pub source_kind : String
  pub source_id : String
  pub created_at : String

pub record WorkspaceSnapshot : Type 0 where
  pub project : WorkspaceProject
  pub modules : List WorkspaceModule
  pub notes : List WorkspaceNote
  pub tasks : List WorkspaceTask
  pub markers : List WorkspaceMarker
