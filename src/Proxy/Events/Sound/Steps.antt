-- ===== src/Proxy/Events/Sound/Steps.antt =====
-- What the ends of the handlers of proxylab-handout/proxy.c do to a record that is in order.
use systems_programming.Base.{
  CStr, Option, ℕ, ◌≤◌, ◌≡◌, ◌≢◌, refl, inl, inr, Option, none, some, List, length, arith,
  Option-cases, sym, subst,
}
use systems_programming.Proxy.Parse.{ok, fault, Target, parse, max_object_size}
use systems_programming.Proxy.Events.{
  State, ReqInfo, Status, complete, suspended, exited, overrun, running, until_nul,
}
use systems_programming.Proxy.Events.Handlers.{
  Resolver, connect_to_server, host_port, idle_at, start_request, connect_request, logging,
  after_sending, after_reading, after_writing,
}
use systems_programming.Proxy.Events.Table.{Returned}
use systems_programming.Proxy.Events.Sound.{HasDescriptors, IsSound, not-Returned}
use systems_programming.Proxy.Parse.Bounds.{parse-small, Parsed-cases}

-- The steps of the descriptors from one state to the next.
asks :
    (c s : Option ℕ) (fd : ℕ)
    → HasDescriptors State.read_client c s
    → HasDescriptors State.write_server c (some fd)
asks (some c) none fd h = tt
asks (some c) (some s) fd h = absurd h
asks none s fd h = absurd h

reads :
    (c s : Option ℕ) → HasDescriptors State.write_server c s → HasDescriptors State.read_server c s
reads (some c) (some s) h = tt
reads (some c) none h = absurd h
reads none s h = absurd h

replies :
    (c s : Option ℕ)
    → HasDescriptors State.read_server c s
    → HasDescriptors State.write_client c none
replies (some c) (some s) h = tt
replies (some c) none h = absurd h
replies none s h = absurd h

ends :
    (c s : Option ℕ) → HasDescriptors State.write_client c s → HasDescriptors State.finished none s
ends (some c) none h = tt
ends (some c) (some s) h = absurd h
ends none s h = absurd h

pub asked_more :
    (req : ReqInfo) (buf : List ℕ) (n : ℕ)
    → IsSound req
    → (n ≡ length buf) × (req.client_bytes_read ≤ n) × (n ≤ max_object_size)
    → IsSound (record req { original_req_buf = buf; client_bytes_read = n })
asked_more req buf n h (count, more, small) = record {
  asked = count;
  asked_small = small;
  request_small = h.request_small;
  sent = h.sent;
  unsent = h.unsent;
  answered = h.answered;
  answered_small = h.answered_small;
  delivered = h.delivered;
  done = h.done;
  descriptors = h.descriptors;
}

module _ (req : ReqInfo) (h : IsSound req) where
  at_state : (st : State) → req.state ≡ st → HasDescriptors st req.client_fd req.server_fd
  at_state st e = subst (λ t. HasDescriptors t req.client_fd req.server_fd) e h.descriptors

  start_request-fault :
      (getaddrinfo : Resolver)
      → parse (until_nul req.original_req_buf) ≡ fault
      → start_request getaddrinfo req ≡ idle_at req overrun
  unfolding start_request
  start_request-fault getaddrinfo q = rw (q, start_request) refl

  start_request-unlogged :
      (getaddrinfo : Resolver) (t : Target)
      → parse (until_nul req.original_req_buf) ≡ ok t
      → logging (until_nul req.original_req_buf) ≡ fault
      → start_request getaddrinfo req ≡ idle_at req overrun
  unfolding start_request
  start_request-unlogged getaddrinfo t q l = rw (q, start_request) (rw l refl)

  start_request-none :
      (getaddrinfo : Resolver) (t : Target) (url : Option CStr)
      → parse (until_nul req.original_req_buf) ≡ ok t
      → logging (until_nul req.original_req_buf) ≡ ok url
      → connect_to_server getaddrinfo t.host (host_port t.port) ≡ none
      → (start_request getaddrinfo req).status ≡ exited
  unfolding start_request connect_request
  start_request-none getaddrinfo t url q l o =
      rw (q, start_request) (rw l (rw (o, connect_request) refl))

  start_request-some :
      (getaddrinfo : Resolver) (t : Target) (url : Option CStr) (fd : ℕ)
      → parse (until_nul req.original_req_buf) ≡ ok t
      → logging (until_nul req.original_req_buf) ≡ ok url
      → connect_to_server getaddrinfo t.host (host_port t.port) ≡ some fd
      → (start_request getaddrinfo req).req ≡ record req {
        modified_req_buf = t.request;
        server_fd = some fd;
        state = State.write_server;
      }
  unfolding start_request connect_request
  start_request-some getaddrinfo t url fd q l o =
      rw (q, start_request) (rw l (rw (o, connect_request) refl))

  pub start_request-IsSound :
      (getaddrinfo : Resolver)
      → req.state ≡ State.read_client
      → Returned (start_request getaddrinfo req).status
      → IsSound (start_request getaddrinfo req).req
  start_request-IsSound getaddrinfo e back =
      elim (Parsed-cases (parse (until_nul req.original_req_buf))) [
        | inl q ↦ absurd (
            not-Returned
              (inr (inr (subst (λ x. Returned x.status) (start_request-fault getaddrinfo q) back))))
        | inr (t, q) ↦ elim (Parsed-cases (logging (until_nul req.original_req_buf))) [
          | inl l ↦ absurd (
              not-Returned (
                inr (
                  inr (
                    subst (λ x. Returned x.status) (start_request-unlogged getaddrinfo t q l)
                      back))))
          | inr (url, l) ↦
              elim (Option-cases (connect_to_server getaddrinfo t.host (host_port t.port))) [
                | inl o ↦ absurd (
                    not-Returned (
                      inr (inl (subst Returned (start_request-none getaddrinfo t url q l o) back))))
                | inr (fd, o) ↦
                    subst IsSound (sym (start_request-some getaddrinfo t url fd q l o)) (record {
                      asked = h.asked;
                      asked_small = h.asked_small;
                      request_small = parse-small (until_nul req.original_req_buf) t q;
                      sent = let z = h.unsent e in omega arith;
                      unsent = λ z. cc;
                      answered = h.answered;
                      answered_small = h.answered_small;
                      delivered = h.delivered;
                      done = λ z. cc;
                      descriptors = asks _ _ fd (at_state _ e);
                    })
              ]
        ]
      ]

  pub after_sending-IsSound :
      (n : ℕ) (out : List ℕ) (status : Status)
      → req.state ≡ State.write_server
      → n ≤ length req.modified_req_buf
      → Returned (after_sending req n out status).status
      → IsSound (after_sending req n out status).req
  unfolding after_sending
  after_sending-IsSound n out complete e le back = record {
    asked = h.asked;
    asked_small = h.asked_small;
    request_small = h.request_small;
    answered = h.answered;
    answered_small = h.answered_small;
    delivered = h.delivered;
    sent = le;
    unsent = λ q. cc;
    done = λ q. cc;
    descriptors = reads _ _ (at_state _ e);
  }
  after_sending-IsSound n out suspended e le back = record {
    asked = h.asked;
    asked_small = h.asked_small;
    request_small = h.request_small;
    answered = h.answered;
    answered_small = h.answered_small;
    delivered = h.delivered;
    done = h.done;
    descriptors = h.descriptors;
    sent = le;
    unsent = λ q. cc;
  }
  after_sending-IsSound n out exited e le back = absurd (not-Returned (inr (inl back)))
  after_sending-IsSound n out overrun e le back = absurd (not-Returned (inr (inr back)))
  after_sending-IsSound n out running e le back = absurd (not-Returned (inl back))

  pub after_reading-IsSound :
      (buf : List ℕ) (n : ℕ) (status : Status)
      → req.state ≡ State.read_server
      → (status ≢ overrun → (n ≡ length buf) × (req.server_bytes_read ≤ n) × (n ≤ max_object_size))
      → Returned (after_reading req buf n status).status
      → IsSound (after_reading req buf n status).req
  unfolding after_reading
  after_reading-IsSound buf n complete e kept back =
      let (count, more, small) = kept (λ q. cc) in
      record {
        asked = h.asked;
        asked_small = h.asked_small;
        request_small = h.request_small;
        sent = h.sent;
        unsent = λ q. cc;
        answered = count;
        answered_small = small;
        delivered = omega (arith, h.delivered);
        done = λ q. cc;
        descriptors = replies _ _ (at_state _ e);
      }
  after_reading-IsSound buf n suspended e kept back =
      let (count, more, small) = kept (λ q. cc) in
      record {
        asked = h.asked;
        asked_small = h.asked_small;
        request_small = h.request_small;
        sent = h.sent;
        unsent = h.unsent;
        descriptors = h.descriptors;
        answered = count;
        answered_small = small;
        delivered = omega (arith, h.delivered);
        done = λ q. cc;
      }
  after_reading-IsSound buf n exited e kept back = absurd (not-Returned (inr (inl back)))
  after_reading-IsSound buf n overrun e kept back = absurd (not-Returned (inr (inr back)))
  after_reading-IsSound buf n running e kept back = absurd (not-Returned (inl back))

  pub after_writing-IsSound :
      (n : ℕ) (out : List ℕ) (status : Status)
      → req.state ≡ State.write_client
      → n ≤ req.server_bytes_read
      → (status ≡ complete → n ≡ req.server_bytes_read)
      → Returned (after_writing req n out status).status
      → IsSound (after_writing req n out status).req
  unfolding after_writing
  after_writing-IsSound n out complete e le whole back = record {
    asked = h.asked;
    asked_small = h.asked_small;
    request_small = h.request_small;
    sent = h.sent;
    answered = h.answered;
    answered_small = h.answered_small;
    unsent = λ q. cc;
    delivered = le;
    done = λ q. whole refl;
    descriptors = ends _ _ (at_state _ e);
  }
  after_writing-IsSound n out suspended e le whole back = record {
    asked = h.asked;
    asked_small = h.asked_small;
    request_small = h.request_small;
    sent = h.sent;
    unsent = h.unsent;
    answered = h.answered;
    answered_small = h.answered_small;
    descriptors = h.descriptors;
    delivered = le;
    done = λ q. cc;
  }
  after_writing-IsSound n out exited e le whole back = absurd (not-Returned (inr (inl back)))
  after_writing-IsSound n out overrun e le whole back = absurd (not-Returned (inr (inr back)))
  after_writing-IsSound n out running e le whole back = absurd (not-Returned (inl back))
