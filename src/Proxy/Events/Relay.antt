-- ===== src/Proxy/Events/Relay.antt =====
-- What comes from the server goes to the client: the loops over `read` and `write` of
-- proxylab-handout/proxy.c, over any number of events.
use mathlib.Core.List.{append-nil, append_assoc}
use systems_programming.Base.{
  ℕ, ◌+◌, ◌-◌, ◌≤◌, ◌≡◌, ◌≢◌, refl, ltb, if◌then◌else◌, Bool, true, false, Bool-cases, inl, inr,
  none, List, [], ◌∷◌, ◌++◌, length, take, drop, take-length, arith, ap, ap₂, ◌∙◌, sym,
}
use systems_programming.Proxy.Parse.{max_object_size}
use systems_programming.Proxy.Events.{
  ReqInfo, ReadResult, got, read_again, read_error, WriteResult, Status, complete, suspended,
  exited, overrun, running, read_response,
}
use systems_programming.Proxy.Events.Handlers.{
  Handled, idle_at, registered, close, after_reading, after_writing, read_server, write_client,
}
use systems_programming.Proxy.Events.Writes.{Takes, Takes-Fits, write_buffer-finishes}
use systems_programming.Proxy.Events.Deliver.{
  or_later, received, read_response_lem, deliver_response, AllFit, unsent, write_client-Sent,
  deliver_response-complete,
}

after_reading-kept :
    (req : ReqInfo) (buf : List ℕ) (n : ℕ) (status : Status)
    → ((after_reading req buf n status).req.response_buf ≡ buf)
      × ((after_reading req buf n status).req.server_bytes_read ≡ n)
      × ((after_reading req buf n status).req.client_bytes_written ≡ req.client_bytes_written)
unfolding after_reading
after_reading-kept req buf n complete = (refl, refl, refl)
after_reading-kept req buf n _ = (refl, refl, refl)

unsent-all :
    (req : ReqInfo)
    → req.client_bytes_written ≡ 0
    → req.server_bytes_read ≡ length req.response_buf
    → unsent req ≡ req.response_buf
unsent-all req fresh size =
    ap₂ (λ m k. take m (drop k req.response_buf)) (omega arith) fresh ∙ take-length req.response_buf

-- The events of one request while it is in the state `read_server`, up to the one that ends it.
unfoldable pub receive_response : List (List ReadResult) → ReqInfo → Handled
receive_response [] req = idle_at req suspended
receive_response (reads ∷ rest) req =
    let h : Handled = read_server true reads req in
    or_later h.status h [] (receive_response rest h.req)

-- Does `read` find the end of the response?
pub at_end : List ReadResult → Bool
at_end [] = false
at_end (got [] ∷ rs) = true
at_end (got (c ∷ bytes) ∷ rs) = at_end rs
at_end (r ∷ rs) = false

-- The bytes that the server has sent, up to the end of the response.
abbrev pub all_received : List (List ReadResult) → List ℕ
all_received [] = []
all_received (reads ∷ rest) = received reads ++ (if at_end reads then [] else all_received rest)

read_response-at_end :
    (rs : List ReadResult) (buf : List ℕ) (n : ℕ)
    → ((read_response rs buf n).status ≡ complete → at_end rs ≡ true)
      × ((read_response rs buf n).status ≡ suspended → at_end rs ≡ false)
unfolding read_response at_end
read_response-at_end [] buf n = ((λ q. cc), λ q. refl)
read_response-at_end (read_again ∷ rs) buf n = ((λ q. cc), λ q. refl)
read_response-at_end (read_error ∷ rs) buf n = ((λ q. cc), λ q. refl)
read_response-at_end (got [] ∷ rs) buf n = ((λ q. refl), λ q. cc)
read_response-at_end (got (c ∷ bytes) ∷ rs) buf n =
    elim (Bool-cases (ltb max_object_size (n + length (c ∷ bytes)))) [
      | inl over ↦ ((λ q. ground arith), λ q. ground arith)
      | inr fits ↦
          rw fits (read_response-at_end rs (take n buf ++ (c ∷ bytes)) (n + length (c ∷ bytes)))
    ]

-- A request that has taken in more of its response.
abbrev Took : ReqInfo → ReqInfo → List ℕ → Type 0
Took before after bytes =
    (after.response_buf ≡ before.response_buf ++ bytes)
    × (after.server_bytes_read ≡ length after.response_buf)
    × (after.client_bytes_written ≡ before.client_bytes_written)

Took-append : (a b c : ReqInfo) (xs ys : List ℕ) → Took a b xs → Took b c ys → Took a c (xs ++ ys)
Took-append a b c xs ys (first, size, same) (second, size', same') =
    (second ∙ ap (λ t. t ++ ys) first ∙ append_assoc a.response_buf xs ys, size', same' ∙ same)

after_reading-status :
    (req : ReqInfo) (buf : List ℕ) (n : ℕ) (status : Status)
    → (after_reading req buf n status).status ≡ status
unfolding after_reading
after_reading-status req buf n complete = refl
after_reading-status req buf n _ = refl

read_server-Took :
    (reads : List ReadResult) (req : ReqInfo)
    → req.server_bytes_read ≡ length req.response_buf
    → (read_server true reads req).status ≢ overrun
    → Took req (read_server true reads req).req (received reads)
unfolding read_server registered
read_server-Took reads req size fits =
    let (buf, count) =
      read_response_lem reads req.response_buf req.server_bytes_read size
        (λ e. fits (after_reading-status req _ _ _ ∙ e)) in
    let (same_buf, same_count, same_written) = after_reading-kept req _ _ _ in
    (same_buf ∙ buf, same_count ∙ count ∙ ap length (sym (same_buf ∙ buf)), same_written)

read_server-at_end :
    (reads : List ReadResult) (req : ReqInfo)
    → ((read_server true reads req).status ≡ complete → at_end reads ≡ true)
      × ((read_server true reads req).status ≡ suspended → at_end reads ≡ false)
unfolding read_server registered
read_server-at_end reads req =
    let (ends, waits) = read_response-at_end reads req.response_buf req.server_bytes_read in
    let same = after_reading-status req _ _ _ in
    ((λ e. ends (sym same ∙ e)), λ e. waits (sym same ∙ e))

or_later-Took :
    (status : Status) (req : ReqInfo) (h later : Handled) (here rest : List ℕ) (end : Bool)
    → (status ≡ complete → end ≡ true)
    → (status ≡ suspended → end ≡ false)
    → (status ≢ overrun → Took req h.req here)
    → (status ≢ overrun → later.status ≡ complete → Took h.req later.req rest)
    → (or_later status h [] later).status ≡ complete
    → Took req (or_later status h [] later).req (here ++ (if end then [] else rest))
unfolding or_later
or_later-Took complete req h later here rest end ends waits took ih e =
    let (buf, size, same) = took (λ q. cc) in
    rw (ends refl) (buf ∙ ap (λ t. req.response_buf ++ t) (sym (append-nil here)), size, same)
or_later-Took suspended req h later here rest end ends waits took ih e =
    rw (waits refl) (Took-append req h.req later.req here rest (took (λ q. cc)) (ih (λ q. cc) e))
or_later-Took exited req h later here rest end ends waits took ih e = cc
or_later-Took overrun req h later here rest end ends waits took ih e = cc
or_later-Took running req h later here rest end ends waits took ih e = cc

-- Events that read a response to its end leave it behind the bytes that the buffer held.
receive_response-Took :
    (events : List (List ReadResult)) (req : ReqInfo)
    → req.server_bytes_read ≡ length req.response_buf
    → (receive_response events req).status ≡ complete
    → Took req (receive_response events req).req (all_received events)
unfolding receive_response
receive_response-Took [] req size e = cc
receive_response-Took (reads ∷ rest) req size e =
    let h : Handled = read_server true reads req in
    let (ends, waits) = read_server-at_end reads req in
    or_later-Took h.status req h (receive_response rest h.req) (received reads) (all_received rest)
      (at_end reads) ends waits (read_server-Took reads req size)
      (λ fits. receive_response-Took rest h.req (read_server-Took reads req size fits).1) e

-- A response that any number of events read to its end and any number of events write to its end,
-- where `epoll_ctl` succeeds, `write` takes no more than it is given and nothing was written before:
-- the client gets the bytes that the buffer held, then those that all the reads returned up to the
-- end of the response, in order and all of them.
pub relay :
    (reads : List (List ReadResult)) (writes : List (List WriteResult)) (req : ReqInfo)
    → req.server_bytes_read ≡ length req.response_buf
    → req.client_bytes_written ≡ 0
    → (receive_response reads req).status ≡ complete
    → AllFit writes (receive_response reads req).req
    → (deliver_response writes (receive_response reads req).req []).status ≡ complete
    → (deliver_response writes (receive_response reads req).req []).out
      ≡ req.response_buf ++ all_received reads
relay reads writes req size fresh read fits done =
    let h : ReqInfo = (receive_response reads req).req in
    let (buf, count, same) = receive_response-Took reads req size read in
    deliver_response-complete writes h [] (let z = same ∙ fresh in omega (arith, z)) fits done
    ∙ unsent-all h (same ∙ fresh) count
    ∙ buf

after_writing-complete :
    (req : ReqInfo) (n : ℕ) (out : List ℕ) (status : Status)
    → status ≡ complete
    → ((after_writing req n out status).status ≡ complete)
      × ((after_writing req n out status).req.client_fd ≡ none)
      × ((after_writing req n out status).calls ≡ close req.client_fd ∷ [])
unfolding after_writing
after_writing-complete req n out complete e = (refl, refl, refl)
after_writing-complete req n out suspended e = cc
after_writing-complete req n out exited e = cc
after_writing-complete req n out overrun e = cc
after_writing-complete req n out running e = cc

-- If the calls of `write` in one event take exactly all that is left, the loop of `write_client` ends: the
-- bytes left are sent, the client's descriptor is closed, once, and the request forgets it.
pub write_client-finishes :
    (ws : List WriteResult) (req : ReqInfo)
    → req.client_bytes_written ≤ req.server_bytes_read
    → Takes ws (req.server_bytes_read - req.client_bytes_written)
    → ((write_client ws req).status ≡ complete)
      × ((write_client ws req).out ≡ unsent req)
      × ((write_client ws req).req.client_fd ≡ none)
      × ((write_client ws req).calls ≡ close req.client_fd ∷ [])
unfolding write_client
write_client-finishes ws req le takes =
    let part = write_client-Sent ws req le (Takes-Fits ws _ takes) in
    let (ended, gone, closed) = after_writing-complete req _ _ _ (
      write_buffer-finishes ws req.response_buf req.server_bytes_read req.client_bytes_written le
        takes) in
    let all : unsent req ≡ (write_client ws req).out =
      part.split ∙ ap (λ t. (write_client ws req).out ++ t) (part.whole ended) ∙ append-nil _ in
    (ended, sym all, gone, closed)
