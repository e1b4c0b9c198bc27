-- ===== src/Startup/Logs.antt =====
-- cmd/jotfs/main.go: the levels of the log, the handlers around `PackfileUploadHandler`, and the hooks
-- of the RPC server. A response is its status code and what was written of it.
use jotfs.Prelude.{ℕ, Option, none, some, [], ◌∷◌, ◌++◌, ◌&&◌, leb, ltb, if◌then◌else◌}
use jotfs.Bytes.{Bytes}
use jotfs.Sum.{sum_eq}
use jotfs.Startup.{warn_text, debug_text, info_text, error_text}

pub data Level : Type 0 where
  debug_level info_level warn_level error_level : Level

unfoldable pub get_logger_level : Bytes → Level
get_logger_level s =
    if sum_eq s debug_text
    then debug_level
    else if sum_eq s info_text
    then info_level
    else if sum_eq s warn_text
    then warn_level
    else if sum_eq s error_text
    then error_level
    else warn_level

-- `responseWriter`: the status and the error that it keeps, beside what reaches the client
pub record ResponseWriter : Type 0 where
  pub status_code : ℕ
  pub err_msg : Bytes
  pub sent : Bytes

abbrev pub new_writer : ResponseWriter
new_writer = record { status_code = 0; err_msg = []; sent = [] }

unfoldable pub write_header : ℕ → ResponseWriter → ResponseWriter
write_header code w = record w { status_code = code }

unfoldable pub write : Bytes → ResponseWriter → ResponseWriter
write p w = record w {
  err_msg = if leb 400 w.status_code then p else w.err_msg;
  sent = w.sent ++ p;
}

-- A line of the log: its level, the method, the status and the message
pub record Line : Type 0 where
  pub level : Level
  pub method : Bytes
  pub status : ℕ
  pub id : Bytes
  pub msg : Bytes

unfoldable pub level_of_status : ℕ → Level
level_of_status status =
    if leb 200 status && ltb status 300
    then info_level
    else if leb 400 status && ltb status 500
    then warn_level
    else error_level

-- The message of a line of `logHandler`
unfoldable pub msg_of_status : ℕ → Bytes → Bytes
msg_of_status status msg = if leb 200 status && ltb status 300 then [] else msg

abbrev pub Handler : Type 0
Handler = Bytes → Bytes → ResponseWriter → ResponseWriter

-- "POST"
abbrev pub post : Bytes
post = 80 ∷ 79 ∷ 83 ∷ 84 ∷ []

-- `http.Error` with the text of the code
unfoldable pub http_error : ℕ → Bytes → ResponseWriter → ResponseWriter
http_error code text w = write (text ++ (10 ∷ [])) (write_header code w)

-- "Method Not Allowed"
abbrev pub method_not_allowed_text : Bytes
method_not_allowed_text =
    77 ∷ 101 ∷ 116 ∷ 104 ∷ 111 ∷ 100 ∷ 32 ∷ 78 ∷ 111 ∷ 116 ∷ 32 ∷ 65 ∷ 108 ∷ 108 ∷ 111 ∷ 119 ∷ 101
    ∷ 100 ∷ []

-- `postHandler`, on a method and a body
unfoldable pub post_handler : Handler → Handler
post_handler handler method body w =
    if sum_eq method post then handler method body w else http_error 405 method_not_allowed_text w

-- `logHandler`, with the id that `xid.New` gives; its time is not modelled.
unfoldable pub log_handler : Bytes → Bytes → Handler → Bytes → Bytes → ResponseWriter × Line
log_handler id name handler method body =
    let ww = handler method body new_writer in
    (
      ww,
      record {
        level = level_of_status ww.status_code;
        method = name;
        status = ww.status_code;
        id = id;
        msg = msg_of_status ww.status_code ww.err_msg;
      },
    )

-- The values that the hooks keep in the context of a request, and the id in the response's header
pub record RpcContext : Type 0 where
  pub req_id : Option Bytes
  pub received_at : Option ℕ
  pub msg : Option Bytes
  pub header_id : Option Bytes

abbrev pub no_context : RpcContext
no_context = record { req_id = none; received_at = none; msg = none; header_id = none }

-- `RequestReceived`, which calls `xid.New` twice
unfoldable pub request_received : Bytes → Bytes → ℕ → RpcContext → RpcContext
request_received id id' now ctx = record ctx {
  header_id = some id;
  req_id = some id';
  received_at = some now;
}

unfoldable pub rpc_error : Bytes → RpcContext → RpcContext
rpc_error msg ctx = record ctx { msg = some msg }

abbrev pub or_empty : Option Bytes → Bytes
or_empty none = []
or_empty (some s) = s

-- `ResponseSent`
unfoldable pub response_sent : Bytes → ℕ → RpcContext → Line
response_sent method status ctx = record {
  level = level_of_status status;
  method = method;
  status = status;
  id = or_empty ctx.req_id;
  msg = or_empty ctx.msg;
}
