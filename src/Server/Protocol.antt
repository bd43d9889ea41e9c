-- ===== src/Server/Protocol.antt =====
-- crates/tryke_server/src/protocol.rs: the messages of both sides. A JSON value is of any type, with
-- the value that stands for `null`; the text of a message is the JSON library's.
use tryke.Prelude.{List, Option, Text, codes, ◌==◌, nat_eq, list_eq, if◌then◌else◌}
use tryke.Types.{TestItem}
use tryke.Types.Outcome.{TestResult}
use tryke.Types.Summary.{RunSummary}
use tryke.Discover.Files.{ℤ, negsuc}

pub data RequestMethod : Type 0 where
  ping discover did_change run : RequestMethod
  unknown : Text → RequestMethod

-- `From<String>`.
unfoldable pub method_of : Text → RequestMethod
method_of method =
    if method == codes "ping"
    then ping
    else if method == codes "discover"
    then discover
    else if method == codes "did_change"
    then did_change
    else if method == codes "run"
    then run
    else unknown method

pub record RunParams : Type 0 where
  pub tests : Option (List Text)
  pub filter : Option Text
  pub paths : Option (List Text)
  pub markers : Option Text
  pub run_id : Text

pub record Request (V : Type 0) : Type 0 where
  pub id : Option V
  pub method : RequestMethod
  pub params : Option V

abbrev pub method_not_found : ℤ
method_not_found = negsuc 32600

abbrev pub invalid_params : ℤ
invalid_params = negsuc 32601

-- What a `Response` holds.
pub data ResponseResult : Type 0 where
  pong ok_changed : ResponseResult
  discovered : List TestItem → ResponseResult
  ran : (run_id : Text) (summary : RunSummary) → ResponseResult

-- The parameters of a notification, which also name its method.
pub data Notification : Type 0 where
  discover_complete : List TestItem → Notification
  run_start : (run_id : Text) (tests : List TestItem) → Notification
  test_complete : (run_id : Text) (result : TestResult) → Notification
  run_complete : (run_id : Text) (summary : RunSummary) → Notification

-- A line that the server writes.
pub data Message (V : Type 0) : Type 0 where
  response : (id : V) (result : ResponseResult) → Message V
  error_response : (id : Option V) (code : ℤ) (message : Text) → Message V
  notification : Notification → Message V
