-- ===== src/Proxy/Events/Sound.antt =====
-- The records of proxylab-handout/proxy.c stay in order: counts, bounds of the buffers, descriptors.
pub mod Handling
pub mod Runs
pub mod Steps
use systems_programming.Base.{
  ℕ, zero, suc, ◌+◌, ◌-◌, ◌≤◌, ◌<◌, ◌≡◌, ◌≢◌, refl, ◌⊎◌, inl, inr, ltb, if◌then◌else◌, true, false,
  Option, none, some, List, [], ◌∷◌, ◌++◌, length, length-append, length-take, take, take-length,
  drop, arith, codes, Bool-cases, Option-cases, ap, ◌∙◌, sym, subst, CStr, get_elem?,
}
use systems_programming.Proxy.Parse.{
  Parsed, ok, fault, Target, parse, finish_parse, max_object_size, ◌>>=◌, deref, strtok, strchr,
  crlf, headers_from, split_host, assemble,
}
use systems_programming.Proxy.Events.{
  State, ReqInfo, req_info_constructor, ReadResult, got, read_again, read_error, WriteResult,
  Status, complete, suspended, exited, overrun, running, Reading, Writing, until_nul, has_end,
  read_request, read_response, write_buffer,
}
use systems_programming.Proxy.Events.Handlers.{
  Resolver, connect_to_server, host_port, Handled, idle_at, start_request, after_asking,
  read_client, after_sending, write_server, after_reading, read_server, after_writing, write_client,
}
use systems_programming.Proxy.Events.Server.{Io, dispatch, Event, handle_event, continue}
use systems_programming.Proxy.Events.Writes.{Fits, write_buffer-Wrote}
use systems_programming.Proxy.Events.Table.{Returned}

-- The descriptors that a request has in each of its states.
abbrev pub HasDescriptors : State → Option ℕ → Option ℕ → Type 0
HasDescriptors State.read_client (some client) none = Unit
HasDescriptors State.write_server (some client) (some server) = Unit
HasDescriptors State.read_server (some client) (some server) = Unit
HasDescriptors State.write_client (some client) none = Unit
HasDescriptors State.finished none none = Unit
HasDescriptors _ _ _ = ⊥

-- A request is in order: each count is that of its buffer or of the part that went out, no buffer is
-- past its end, and the descriptors fit the state.
pub record IsSound (req : ReqInfo) : Type 0 where
  pub asked : req.client_bytes_read ≡ length req.original_req_buf
  pub asked_small : req.client_bytes_read ≤ max_object_size
  pub request_small : length req.modified_req_buf < max_object_size
  pub sent : req.server_bytes_written ≤ length req.modified_req_buf
  pub unsent : req.state ≡ State.read_client → req.server_bytes_written ≡ 0
  pub answered : req.server_bytes_read ≡ length req.response_buf
  pub answered_small : req.server_bytes_read ≤ max_object_size
  pub delivered : req.client_bytes_written ≤ req.server_bytes_read
  pub done : req.state ≡ State.finished → req.client_bytes_written ≡ req.server_bytes_read
  pub descriptors : HasDescriptors req.state req.client_fd req.server_fd

-- What a loop that reads keeps: the count is that of the buffer, it grows, and it is within the buffer.
abbrev pub Kept : ℕ → Reading → Type 0
Kept n r = (r.count ≡ length r.buf) × (n ≤ r.count) × (r.count ≤ max_object_size)

pub read_request-Kept :
    (rs : List ReadResult) (buf : List ℕ) (n : ℕ)
    → n ≡ length buf
    → n ≤ max_object_size
    → (read_request rs buf n).status ≢ overrun
    → Kept n (read_request rs buf n)
unfolding read_request
read_request-Kept [] buf n e le ne = (e, omega arith, le)
read_request-Kept (read_again ∷ rs) buf n e le ne = elim (Bool-cases (has_end (until_nul buf))) [
  | inl q ↦ rw q (e, omega arith, le)
  | inr q ↦ rw q (e, omega arith, le)
]
read_request-Kept (read_error ∷ rs) buf n e le ne = elim (Bool-cases (has_end (until_nul buf))) [
  | inl q ↦ rw q (e, omega arith, le)
  | inr q ↦ rw q (e, omega arith, le)
]
read_request-Kept (got bytes ∷ rs) buf n e le ne = elim (Bool-cases (has_end (until_nul buf))) [
  | inl q ↦ rw q (e, omega arith, le)
  | inr q ↦ elim (Bool-cases (ltb max_object_size (n + length bytes))) [
    | inl over ↦ absurd (ne (ground arith))
    | inr fits ↦
        let (count, more, small) =
          read_request-Kept rs (take n buf ++ bytes) (n + length bytes)
            (omega (arith, length-append (take n buf) bytes, length-take n buf)) (ground arith)
            (λ z. ne (rw q (rw fits z))) in
        rw q (rw fits (count, omega (arith, more), small))
  ]
]

pub read_response-Kept :
    (rs : List ReadResult) (buf : List ℕ) (n : ℕ)
    → n ≡ length buf
    → n ≤ max_object_size
    → (read_response rs buf n).status ≢ overrun
    → Kept n (read_response rs buf n)
unfolding read_response
read_response-Kept [] buf n e le ne = (e, omega arith, le)
read_response-Kept (read_again ∷ rs) buf n e le ne = (e, omega arith, le)
read_response-Kept (read_error ∷ rs) buf n e le ne = (e, omega arith, le)
read_response-Kept (got [] ∷ rs) buf n e le ne = (e, omega arith, le)
read_response-Kept (got (c ∷ bytes) ∷ rs) buf n e le ne =
    elim (Bool-cases (ltb max_object_size (n + length (c ∷ bytes)))) [
      | inl over ↦ absurd (ne (ground arith))
      | inr fits ↦ rw fits (
          let (count, more, small) =
            read_response-Kept rs (take n buf ++ (c ∷ bytes)) (n + length (c ∷ bytes))
              (omega (arith, length-append (take n buf) (c ∷ bytes), length-take n buf))
              (ground arith) (λ q. ne (rw fits q)) in
          (count, omega (arith, more), small))
    ]

pub not-Returned : Returned running ⊎ (Returned exited ⊎ Returned overrun) → ⊥
not-Returned (inl (inl e)) = cc
not-Returned (inl (inr e)) = cc
not-Returned (inr (inl (inl e))) = cc
not-Returned (inr (inl (inr e))) = cc
not-Returned (inr (inr (inl e))) = cc
not-Returned (inr (inr (inr e))) = cc
