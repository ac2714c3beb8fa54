-- ===== src/Ipc/Router.antt =====
-- crates/ipc/src/namespace.rs, the messages of crates/ipc/src/protocol.rs, and the answer to a line in
-- `handle_connection` of crates/ipc/src/server.rs. JSON values are a type, and JSON texts a parameter;
-- a handler is a function of a state that all of them share. A line is without white space around it.
pub mod Laws
use craftec_core.Maps.{get, insert}
use craftec_core.Settlement.Accounts.{ℤ, negsuc}
use craftec_core.Prelude.{
  ◌==◌, if◌then◌else◌, Option, none, some, List, [], ◌∷◌, ◌++◌, map, Byte, u8, key_eq,
}

pub record RpcRequest (Value : Type 0) : Type 0 where
  pub jsonrpc : List Byte
  pub method : List Byte
  pub params : Option Value
  pub id : Value

pub record RpcError : Type 0 where
  pub code : ℤ
  pub message : List Byte

pub record RpcResponse (Value : Type 0) : Type 0 where
  pub jsonrpc : List Byte
  pub result : Option Value
  pub error : Option RpcError
  pub id : Value

-- `"2.0"`
unfoldable pub version : List Byte
version = map u8 (50 ∷ 46 ∷ 48 ∷ [])

-- `"unknown method: "` and `"Parse error: "`
unfoldable pub unknown_method : List Byte
unknown_method = map u8 (
    117 ∷ 110 ∷ 107 ∷ 110 ∷ 111 ∷ 119 ∷ 110 ∷ 32 ∷ 109 ∷ 101 ∷ 116 ∷ 104 ∷ 111 ∷ 100 ∷ 58 ∷ 32 ∷ [])

unfoldable pub parse_error : List Byte
parse_error = map u8 (80 ∷ 97 ∷ 114 ∷ 115 ∷ 101 ∷ 32 ∷ 101 ∷ 114 ∷ 114 ∷ 111 ∷ 114 ∷ 58 ∷ 32 ∷ [])

-- What a handler answers.
pub data Answer (Value : Type 0) : Type 0 where
  good : Value → Answer Value
  bad : List Byte → Answer Value

-- `serde_json::from_str` of a request, or the text of its error.
pub data Read (Value : Type 0) : Type 0 where
  request : RpcRequest Value → Read Value
  unreadable : List Byte → Read Value

-- `split_once('.')`
unfoldable pub split_once : List Byte → Option (List Byte × List Byte)
split_once [] = none
split_once (b ∷ bs) =
    let rest = split_once bs in
    if b.value == 46
    then some ([], bs)
    else elim rest [ none ↦ none | some parts ↦ some (b ∷ parts.0, parts.1) ]

module _ {Value : Type 0} where
  -- `RpcRequest::new`
  abbrev pub new_request : List Byte → Option Value → Value → RpcRequest Value
  new_request method params id = record {
    jsonrpc = version;
    method = method;
    params = params;
    id = id;
  }

  -- `RpcResponse::success` and `RpcResponse::error`
  abbrev pub success : Value → Value → RpcResponse Value
  success id result = record { jsonrpc = version; result = some result; error = none; id = id }

  abbrev pub failure : Value → ℤ → List Byte → RpcResponse Value
  failure id code message = record {
    jsonrpc = version;
    result = none;
    error = some (record { code = code; message = message });
    id = id;
  }

  -- The response to an answer.
  abbrev pub respond : Value → Answer Value → RpcResponse Value
  respond id (good result) = success id result
  respond id (bad msg) = failure id (negsuc 31999) msg

pub record NamespacedHandler (Value State : Type 0) : Type 0 where
  pub handlers : List (List Byte × (List Byte → Option Value → State → State × Answer Value))
  pub default : Option (List Byte → Option Value → State → State × Answer Value)

module _ {Value State : Type 0} where
  abbrev pub new_router : NamespacedHandler Value State
  new_router = record { handlers = []; default = none }

  abbrev pub add_namespace :
      List Byte
      → (List Byte → Option Value → State → State × Answer Value)
      → NamespacedHandler Value State
      → NamespacedHandler Value State
  add_namespace prefix handler r = record {
    handlers = insert key_eq prefix handler r.handlers;
    default = r.default;
  }

  abbrev pub set_default :
      (List Byte → Option Value → State → State × Answer Value)
      → NamespacedHandler Value State
      → NamespacedHandler Value State
  set_default handler r = record { handlers = r.handlers; default = some handler }

  -- The call of the handler that was found, if there is one.
  abbrev pub call_handler :
      List Byte
      → Option (List Byte → Option Value → State → State × Answer Value)
      → List Byte
      → Option Value
      → State
      → State × Answer Value
  call_handler method none stripped params s = (s, bad (unknown_method ++ method))
  call_handler method (some h) stripped params s = h stripped params s

  -- The handler of the namespace, or the default one with the whole method.
  abbrev pub call_namespace :
      NamespacedHandler Value State
      → List Byte
      → Option (List Byte → Option Value → State → State × Answer Value)
      → List Byte
      → Option Value
      → State
      → State × Answer Value
  call_namespace r method (some h) rest params s = call_handler method (some h) rest params s
  call_namespace r method none rest params s = call_handler method r.default method params s

  abbrev pub call_parts :
      NamespacedHandler Value State
      → List Byte
      → Option (List Byte × List Byte)
      → Option Value
      → State
      → State × Answer Value
  call_parts r method none params s = call_handler method r.default method params s
  call_parts r method (some (ns, rest)) params s =
      call_namespace r method (get key_eq r.handlers ns) rest params s

  -- `NamespacedHandler::handle`
  unfoldable pub handle :
      NamespacedHandler Value State → List Byte → Option Value → State → State × Answer Value
  handle r method params s = call_parts r method (split_once method) params s

  -- What `handle_connection` writes for a line: the state after it and the response, if the line is not
  -- empty.
  abbrev pub answer_read :
      Value
      → NamespacedHandler Value State
      → Read Value
      → State
      → State × Option (RpcResponse Value)
  answer_read null r (unreadable e) s = (s, some (failure null (negsuc 32699) (parse_error ++ e)))
  answer_read null r (request req) s =
      let done = handle r req.method req.params s in (done.0, some (respond req.id done.1))

  abbrev pub answer_line :
      (List Byte → Read Value)
      → Value
      → NamespacedHandler Value State
      → List Byte
      → State
      → State × Option (RpcResponse Value)
  answer_line from_str null r [] s = (s, none)
  answer_line from_str null r (b ∷ line) s = answer_read null r (from_str (b ∷ line)) s
