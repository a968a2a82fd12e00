-- ===== src/Proxy/Events/Sound/Handling.antt =====
-- Each handler of proxylab-handout/proxy.c that returns to the loop leaves its record in order.
use systems_programming.Base.{
  ℕ, ◌-◌, ◌≤◌, ◌≡◌, ◌≢◌, refl, inl, inr, List, length, ap, ◌∙◌, sym, subst,
}
use systems_programming.Proxy.Parse.{max_object_size}
use systems_programming.Proxy.Events.{
  State, ReqInfo, Status, complete, suspended, exited, overrun, running,
}
use systems_programming.Proxy.Events.Handlers.{
  Resolver, Handled, idle_at, after_asking, read_client, write_server, read_server, write_client,
}
use systems_programming.Proxy.Events.Server.{Io, dispatch}
use systems_programming.Proxy.Events.Writes.{Fits, write_buffer-Wrote}
use systems_programming.Proxy.Events.Table.{Returned, registered-Returned}
use systems_programming.Proxy.Events.Sound.{
  IsSound, read_request-Kept, read_response-Kept, not-Returned,
}
use systems_programming.Proxy.Events.Sound.Steps.{
  asked_more, start_request-IsSound, after_sending-IsSound, after_reading-IsSound,
  after_writing-IsSound,
}

after_asking-IsSound :
    (getaddrinfo : Resolver) (req : ReqInfo) (buf : List ℕ) (n : ℕ) (status : Status)
    → IsSound req
    → req.state ≡ State.read_client
    → (status ≢ overrun → (n ≡ length buf) × (req.client_bytes_read ≤ n) × (n ≤ max_object_size))
    → Returned (after_asking getaddrinfo req buf n status).status
    → IsSound (after_asking getaddrinfo req buf n status).req
unfolding after_asking
after_asking-IsSound getaddrinfo req buf n complete h e kept back =
    start_request-IsSound _ (asked_more req buf n h (kept (λ q. cc))) getaddrinfo e back
after_asking-IsSound getaddrinfo req buf n suspended h e kept back =
    asked_more req buf n h (kept (λ q. cc))
after_asking-IsSound getaddrinfo req buf n exited h e kept back =
    absurd (not-Returned (inr (inl back)))
after_asking-IsSound getaddrinfo req buf n overrun h e kept back =
    absurd (not-Returned (inr (inr back)))
after_asking-IsSound getaddrinfo req buf n running h e kept back = absurd (not-Returned (inl back))

-- What the kernel guarantees of `write` in the calls that a handler makes: it takes no more than it is
-- given.
abbrev pub IsPolite : Io → ReqInfo → Type 0
IsPolite io req =
    (req.state ≡ State.write_server
      → Fits io.writes (length req.modified_req_buf - req.server_bytes_written))
    × (req.state ≡ State.write_client
        → Fits io.writes (req.server_bytes_read - req.client_bytes_written))

module _ (getaddrinfo : Resolver) (io : Io) (req : ReqInfo) (h : IsSound req)
    (polite : IsPolite io req) where
  handler_of : State → Handled
  handler_of st = elim st [
    | State.read_client ↦ read_client getaddrinfo io.registers io.reads req
    | State.write_server ↦ write_server io.registers io.writes req
    | State.read_server ↦ read_server io.registers io.reads req
    | State.write_client ↦ write_client io.writes req
    | State.finished ↦ idle_at req suspended
  ]

  dispatch_lem : dispatch getaddrinfo io req ≡ handler_of req.state
  unfolding dispatch handler_of
  dispatch_lem = refl

  handled-IsSound :
      (st : State)
      → req.state ≡ st
      → (Returned (handler_of st).status → IsSound (handler_of st).req)
      → Returned (dispatch getaddrinfo io req).status
      → IsSound (dispatch getaddrinfo io req).req
  handled-IsSound st e sound =
      subst (λ x. Returned x.status → IsSound x.req) (sym (dispatch_lem ∙ ap handler_of e)) sound

  pub dispatch-IsSound :
      Returned (dispatch getaddrinfo io req).status → IsSound (dispatch getaddrinfo io req).req
  unfolding handler_of read_client write_server read_server write_client
  dispatch-IsSound = go req.state refl
    where
      go :
          (st : State)
          → req.state ≡ st
          → Returned (dispatch getaddrinfo io req).status
          → IsSound (dispatch getaddrinfo io req).req
      go State.read_client e = handled-IsSound State.read_client e (
          registered-Returned (λ x. IsSound x.req) io.registers _
            (after_asking-IsSound getaddrinfo req _ _ _ h e (
              read_request-Kept io.reads req.original_req_buf req.client_bytes_read h.asked
                h.asked_small)))
      go State.write_server e = handled-IsSound State.write_server e (
          registered-Returned (λ x. IsSound x.req) io.registers _
            (after_sending-IsSound req h _ _ _ e
              (write_buffer-Wrote io.writes req.modified_req_buf (length req.modified_req_buf)
                req.server_bytes_written h.sent (polite.0 e)).high))
      go State.read_server e = handled-IsSound State.read_server e (
          registered-Returned (λ x. IsSound x.req) io.registers _
            (after_reading-IsSound req h _ _ _ e (
              read_response-Kept io.reads req.response_buf req.server_bytes_read h.answered
                h.answered_small)))
      go State.write_client e =
          let w =
            write_buffer-Wrote io.writes req.response_buf req.server_bytes_read
              req.client_bytes_written h.delivered (polite.1 e) in
          handled-IsSound State.write_client e (after_writing-IsSound req h _ _ _ e w.high w.done)
      go State.finished e = handled-IsSound State.finished e (λ _. h)
