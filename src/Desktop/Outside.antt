-- ===== src/Desktop/Outside.antt =====
-- What surrounds the main process of desktop/main.mjs: the programs, requests and dialogs it asks for.
use v.Prelude.{ℕ, String, Bool, List, Option}
use v.Js.{Value, Fields, Thrown, Body}

-- A program to run: the variables that are added to its environment, and its time limit in
-- milliseconds. An argument or a variable that is not a text is for Node to refuse.
pub record Command : Type 0 where
  pub program : String
  pub arguments : List Value
  pub added : List (String × Value)
  pub timeout : ℕ

-- What `execFile` gives: the two outputs, or an error with those it has and its message.
pub data Executed : Type 0 where
  finished : String → String → Executed
  failed : Option String → Option String → String → Executed

pub record Request : Type 0 where
  pub method : String
  pub url : String
  pub headers : List (String × Value)
  pub body : Fields

-- What `fetch` gives: the status, `json()` and `text()` of a response.
pub data Answer : Type 0 where
  refused : Thrown → Answer
  answered : ℕ → Body Value → Body String → Answer

pub record Selection : Type 0 where
  pub canceled : Bool
  pub paths : List String

pub record Cookie : Type 0 where
  pub url : String
  pub name : String
  pub value : Value
  pub secure : Bool
  pub expires : ℕ

-- What the program asks of its host.
pub data Effect : Type 0 where
  saved : Fields → Effect
  ran : Command → Effect
  spawned : Command → Effect
  sent : Request → Effect
  looked : String → Effect
  listed : Value → Effect
  wrote : String → String → Effect
  made_directory : String → Effect
  made_temporary : String → Effect
  removed : String → Effect
  picked : String → Effect
  cookie_set : Cookie → Effect
  opened_external : Value → Effect
  opened_path : String → Effect
  created_window : Effect
  maximized : Effect
  loaded : String → Effect
  quit : Effect

-- What was asked, the latest first.
abbrev pub History : Type 0
History = List Effect

-- The encrypted file of the program's settings.
pub data Secrets : Type 0 where
  missing : Secrets
  unreadable : Thrown → Secrets
  corrupt : Thrown → Secrets
  sealed : Fields → Secrets

-- What a write of the settings that throws leaves: the old file, one cut short (the file is emptied
-- before it is written), or the whole new one.
pub data Leftover : Type 0 where
  kept_old : Leftover
  cut_short : Thrown → Leftover
  written_whole : Leftover

pub record Host : Type 0 where
  pub platform : String
  pub packaged : Bool
  -- An unset variable is empty here: the program takes both for unset.
  pub variable : String → String
  pub user_data : String
  pub home : String
  pub resources : String
  pub directory : String
  pub temporary : String
  pub hostname : String
  pub version : String
  pub join : List String → String
  pub dirname : String → String
  pub encode : String → String
  pub iso : ℕ → String
  pub can_encrypt : History → Bool
  pub now : History → ℕ
  pub random : History → String
  pub exists : History → String → Bool
  pub execute : History → Command → Executed
  pub fetch : History → Request → Answer
  pub pick : History → String → Selection
  pub entries : History → Value → Body (List String)
  pub temporary_directory : History → String → Body String
  pub open_path_error : History → String → String
  -- What an effect throws, and what a write of the settings that throws leaves behind.
  pub fails : History → Effect → Option Thrown
  pub left_over : History → Leftover
