-- ===== src/Proxy/Events/Deliver.antt =====
-- The two ends of proxylab-handout/proxy.c: what comes from the server, and what goes to the client.
use mathlib.Core.List.{append-nil, append_assoc}
use systems_programming.Base.{
  ℕ, ◌+◌, ◌-◌, ◌≤◌, ◌≡◌, ◌≢◌, refl, ltb, List, [], ◌∷◌, ◌++◌, length, length-append, take, drop,
  take-drop_append, take-length, arith, Bool-cases, inl, inr, ap, ◌∙◌, sym,
}
use systems_programming.Proxy.Parse.{max_object_size}
use systems_programming.Proxy.Events.{
  ReqInfo, ReadResult, got, read_again, read_error, WriteResult, Status, complete, suspended,
  exited, overrun, running, read_response,
}
use systems_programming.Proxy.Events.Handlers.{Handled, after_writing, write_client}
use systems_programming.Proxy.Events.Writes.{Fits, write_buffer-Wrote}

-- The bytes that a run of the read loop takes in.
abbrev pub received : List ReadResult → List ℕ
received [] = []
received (got [] ∷ rs) = []
received (got (c ∷ bytes) ∷ rs) = (c ∷ bytes) ++ received rs
received (r ∷ rs) = []

-- They stand behind those that the buffer held, unless they do not fit.
pub read_response_lem :
    (rs : List ReadResult) (buf : List ℕ) (n : ℕ)
    → n ≡ length buf
    → (read_response rs buf n).status ≢ overrun
    → ((read_response rs buf n).buf ≡ buf ++ received rs)
      × ((read_response rs buf n).count ≡ length (buf ++ received rs))
unfolding read_response
read_response_lem [] buf n e ne = (sym (append-nil buf), e ∙ ap length (sym (append-nil buf)))
read_response_lem (read_again ∷ rs) buf n e ne =
    (sym (append-nil buf), e ∙ ap length (sym (append-nil buf)))
read_response_lem (read_error ∷ rs) buf n e ne =
    (sym (append-nil buf), e ∙ ap length (sym (append-nil buf)))
read_response_lem (got [] ∷ rs) buf n e ne =
    (sym (append-nil buf), e ∙ ap length (sym (append-nil buf)))
read_response_lem (got (c ∷ bytes) ∷ rs) buf n e ne =
    elim (Bool-cases (ltb max_object_size (n + length (c ∷ bytes)))) [
      | inl over ↦ absurd (ne (ground arith))
      | inr fits ↦ rw fits (
          let here : take n buf ++ (c ∷ bytes) ≡ buf ++ (c ∷ bytes) =
            ap (λ t. t ++ (c ∷ bytes)) (ap (λ k. take k buf) e ∙ take-length buf) in
          let joined : (take n buf ++ (c ∷ bytes)) ++ received rs
              ≡ buf ++ ((c ∷ bytes) ++ received rs) =
            ap (λ t. t ++ received rs) here ∙ append_assoc buf (c ∷ bytes) (received rs) in
          let (whole, count) =
            read_response_lem rs (take n buf ++ (c ∷ bytes)) (n + length (c ∷ bytes))
              (omega (arith, ap length here, length-append buf (c ∷ bytes)))
              (λ q. ne (rw fits q)) in
          (whole ∙ joined, count ∙ ap length joined))
    ]

-- A handler that waits is called again; another end is final.
unfoldable pub or_later : Status → Handled → List ℕ → Handled → Handled
or_later suspended h sent later = later
or_later other h sent later = record {
  req = h.req;
  status = other;
  calls = h.calls;
  out = sent ++ h.out;
}

-- The events of one request while it is in the state `write_client`, up to the one that ends it, and
-- the bytes that the client has got.
unfoldable pub deliver_response : List (List WriteResult) → ReqInfo → List ℕ → Handled
deliver_response [] req sent = record { req = req; status = suspended; calls = []; out = sent }
deliver_response (ws ∷ rest) req sent =
    let h : Handled = write_client ws req in
    or_later h.status h sent (deliver_response rest h.req (sent ++ h.out))

abbrev pub AllFit : List (List WriteResult) → ReqInfo → Type 0
AllFit [] req = Unit
AllFit (ws ∷ rest) req =
    Fits ws (req.server_bytes_read - req.client_bytes_written)
    × AllFit rest (write_client ws req).req

abbrev pub unsent : ReqInfo → List ℕ
unsent req =
    take (req.server_bytes_read - req.client_bytes_written)
      (drop req.client_bytes_written req.response_buf)

-- What one event of the client does: part of what is left goes out, and the rest is left.
pub record Sent (req : ReqInfo) (h : Handled) : Type 0 where
  pub split : unsent req ≡ h.out ++ unsent h.req
  pub whole : h.status ≡ complete → unsent h.req ≡ []
  pub order : h.req.client_bytes_written ≤ h.req.server_bytes_read

parts :
    (req : ReqInfo) (n : ℕ) (out : List ℕ)
    → req.client_bytes_written ≤ n
    → n ≤ req.server_bytes_read
    → out ≡ take (n - req.client_bytes_written) (drop req.client_bytes_written req.response_buf)
    → unsent req ≡ out ++ take (req.server_bytes_read - n) (drop n req.response_buf)
parts req n out low high bytes =
    let from : ℕ → List ℕ = λ k. drop k req.response_buf in
    let start = req.client_bytes_written in
    let k : start + (n - start) ≡ n = omega arith in
    let m : (n - start) + (req.server_bytes_read - n) ≡ req.server_bytes_read - start =
      omega arith in
    sym (
      ap (λ t. t ++ take (req.server_bytes_read - n) (from n)) bytes
      ∙ ap (λ t. take (n - start) (from start) ++ take (req.server_bytes_read - n) (from t)) (sym k)
      ∙ take-drop_append start (n - start) (req.server_bytes_read - n) req.response_buf
      ∙ ap (λ t. take t (from start)) m)

after_writing-Sent :
    (req : ReqInfo) (n : ℕ) (out : List ℕ) (status : Status)
    → req.client_bytes_written ≤ n
    → n ≤ req.server_bytes_read
    → out ≡ take (n - req.client_bytes_written) (drop req.client_bytes_written req.response_buf)
    → (status ≡ complete → n ≡ req.server_bytes_read)
    → Sent req (after_writing req n out status)
unfolding after_writing
after_writing-Sent req n out complete low high bytes done = record {
  split = parts req n out low high bytes;
  whole = λ _. nothing (done refl);
  order = high;
}
  where
    nothing :
        n ≡ req.server_bytes_read → take (req.server_bytes_read - n) (drop n req.response_buf) ≡ []
    nothing e = let z : req.server_bytes_read - n ≡ 0 = omega arith in rw z
after_writing-Sent req n out suspended low high bytes done = record {
  split = parts req n out low high bytes;
  whole = λ q. cc;
  order = high;
}
after_writing-Sent req n out exited low high bytes done = record {
  split = parts req n out low high bytes;
  whole = λ q. cc;
  order = high;
}
after_writing-Sent req n out overrun low high bytes done = record {
  split = parts req n out low high bytes;
  whole = λ q. cc;
  order = high;
}
after_writing-Sent req n out running low high bytes done = record {
  split = parts req n out low high bytes;
  whole = λ q. cc;
  order = high;
}

pub write_client-Sent :
    (ws : List WriteResult) (req : ReqInfo)
    → req.client_bytes_written ≤ req.server_bytes_read
    → Fits ws (req.server_bytes_read - req.client_bytes_written)
    → Sent req (write_client ws req)
unfolding write_client
write_client-Sent ws req le fits =
    let w =
      write_buffer-Wrote ws req.response_buf req.server_bytes_read req.client_bytes_written le
        fits in
    after_writing-Sent req _ _ _ w.low w.high w.bytes w.done

or_later-complete :
    (status : Status) (req : ReqInfo) (h : Handled) (sent : List ℕ) (later : Handled)
    → Sent req h
    → h.status ≡ status
    → (later.status ≡ complete → later.out ≡ (sent ++ h.out) ++ unsent h.req)
    → (or_later status h sent later).status ≡ complete
    → (or_later status h sent later).out ≡ sent ++ unsent req
unfolding or_later
or_later-complete suspended req h sent later s e ih q =
    ih q ∙ append_assoc sent h.out (unsent h.req) ∙ ap (λ t. sent ++ t) (sym s.split)
or_later-complete complete req h sent later s e ih q =
    let all : unsent req ≡ h.out = s.split ∙ ap (λ t. h.out ++ t) (s.whole e) ∙ append-nil h.out in
    ap (λ t. sent ++ t) (sym all)
or_later-complete exited req h sent later s e ih q = cc
or_later-complete overrun req h sent later s e ih q = cc
or_later-complete running req h sent later s e ih q = cc

-- Events that end the request in success have sent exactly the bytes that were left.
pub deliver_response-complete :
    (events : List (List WriteResult)) (req : ReqInfo) (sent : List ℕ)
    → req.client_bytes_written ≤ req.server_bytes_read
    → AllFit events req
    → (deliver_response events req sent).status ≡ complete
    → (deliver_response events req sent).out ≡ sent ++ unsent req
unfolding deliver_response
deliver_response-complete [] req sent le fits = λ e. cc
deliver_response-complete (ws ∷ rest) req sent le fits =
    let h : Handled = write_client ws req in
    let part = write_client-Sent ws req le fits.0 in
    or_later-complete h.status req h sent (deliver_response rest h.req (sent ++ h.out)) part refl
      (deliver_response-complete rest h.req (sent ++ h.out) part.order fits.1)
