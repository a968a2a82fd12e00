-- ===== src/Proxy/Events.antt =====
-- The state of proxylab-handout/proxy.c: one record for each request, in an array that only grows,
-- and the loops of its handlers over the calls of `read` and `write`. The results of these calls
-- come in as a list; a descriptor of -1 is `none`.
pub mod Handlers
pub mod Server
pub mod Writes
pub mod Relay
pub mod Table
pub mod Life
pub mod Sound
pub mod Last
pub mod Find
pub mod Deliver
pub mod Main
pub mod History
pub mod Stale
use systems_programming.Base.{
  ℕ, zero, suc, ◌+◌, ◌-◌, ◌==◌, ltb, if◌then◌else◌, Bool, true, false, ◌||◌, ◌&&◌, Option, none,
  some, List, [], ◌∷◌, ◌++◌, length, take, drop, CStr,
}
use systems_programming.Proxy.Parse.{max_object_size}

-- `enum states`, and the -1 of a request that is done.
pub data State : Type 0 where
  read_client write_server read_server write_client finished : State

-- `req_info_t`. A buffer holds the bytes that were stored into it; the rest is zero.
pub record ReqInfo : Type 0 where
  pub client_fd : Option ℕ
  pub server_fd : Option ℕ
  pub state : State
  pub original_req_buf : List ℕ
  pub modified_req_buf : CStr
  pub response_buf : List ℕ
  pub client_bytes_read : ℕ
  pub server_bytes_written : ℕ
  pub server_bytes_read : ℕ
  pub client_bytes_written : ℕ

-- `req_info_constructor`
abbrev pub req_info_constructor : ReqInfo
req_info_constructor = record {
  client_fd = none;
  server_fd = none;
  state = read_client;
  original_req_buf = [];
  modified_req_buf = [];
  response_buf = [];
  client_bytes_read = 0;
  server_bytes_written = 0;
  server_bytes_read = 0;
  client_bytes_written = 0;
}

-- A call of `read`: bytes (none at the end of the stream), EAGAIN or EWOULDBLOCK, another error.
pub data ReadResult : Type 0 where
  got : List ℕ → ReadResult
  read_again : ReadResult
  read_error : ReadResult

-- A call of `write`: the number of bytes that were taken, or an error likewise.
pub data WriteResult : Type 0 where
  wrote : ℕ → WriteResult
  write_again : WriteResult
  write_error : WriteResult

-- How a loop ends: by its test, by a return on EAGAIN, by `exit`, by a store past a buffer; `running`
-- if it still runs after the given calls.
pub data Status : Type 0 where
  complete suspended exited overrun running : Status

-- A text up to its first NUL, and whether a text holds the end of the headers (`strstr`).
unfoldable pub until_nul : List ℕ → CStr
until_nul [] = []
until_nul (c ∷ s) = if c == 0 then [] else c ∷ until_nul s

abbrev pub begins_end : List ℕ → Bool
begins_end (a ∷ b ∷ c ∷ d ∷ s) = a == 13 && (b == 10 && (c == 13 && d == 10))
begins_end _ = false

unfoldable pub has_end : CStr → Bool
has_end [] = false
has_end (c ∷ s) = begins_end (c ∷ s) || has_end s

-- The buffer, the count of its bytes and the end of a loop that reads.
pub record Reading : Type 0 where
  pub buf : List ℕ
  pub count : ℕ
  pub status : Status

-- The loop of `read_client`: until the buffer holds the end of the headers.
unfoldable pub read_request : List ReadResult → List ℕ → ℕ → Reading
read_request [] buf n = record {
  buf = buf;
  count = n;
  status = if has_end (until_nul buf) then complete else running;
}
read_request (r ∷ rs) buf n =
    if has_end (until_nul buf) then record { buf = buf; count = n; status = complete } else elim r [
      | read_again ↦ record { buf = buf; count = n; status = suspended }
      | read_error ↦ record { buf = buf; count = n; status = exited }
      | got bytes ↦
          let buf' : List ℕ = take n buf ++ bytes in
          let rest : Reading = read_request rs buf' (n + length bytes) in
          if ltb max_object_size (n + length bytes)
          then record { buf = buf'; count = n + length bytes; status = overrun }
          else rest
    ]

-- The loop of `read_server`: until a read returns nothing.
unfoldable pub read_response : List ReadResult → List ℕ → ℕ → Reading
read_response [] buf n = record { buf = buf; count = n; status = running }
read_response (read_again ∷ rs) buf n = record { buf = buf; count = n; status = suspended }
read_response (read_error ∷ rs) buf n = record { buf = buf; count = n; status = exited }
read_response (got [] ∷ rs) buf n = record { buf = buf; count = n; status = complete }
read_response (got (c ∷ bytes) ∷ rs) buf n =
    let buf' : List ℕ = take n buf ++ (c ∷ bytes) in
    let rest : Reading = read_response rs buf' (n + length (c ∷ bytes)) in
    if ltb max_object_size (n + length (c ∷ bytes))
    then record { buf = buf'; count = n + length (c ∷ bytes); status = overrun }
    else rest

-- The count of the bytes that went out, those bytes, and the end of a loop that writes.
pub record Writing : Type 0 where
  pub count : ℕ
  pub out : List ℕ
  pub status : Status

-- The loop of `write_server` and `write_client`: until `n` is `len`.
unfoldable pub write_buffer : List WriteResult → List ℕ → ℕ → ℕ → Writing
write_buffer [] buf len n = record {
  count = n;
  out = [];
  status = if n == len then complete else running;
}
write_buffer (r ∷ rs) buf len n =
    if n == len then record { count = n; out = []; status = complete } else elim r [
      | write_again ↦ record { count = n; out = []; status = suspended }
      | write_error ↦ record { count = n; out = []; status = exited }
      | wrote k ↦
          let rest : Writing = write_buffer rs buf len (n + k) in
          record { count = rest.count; out = take k (drop n buf) ++ rest.out; status = rest.status }
    ]
