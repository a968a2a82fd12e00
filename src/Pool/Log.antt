-- ===== src/Pool/Log.antt =====
-- From a request to the log file of first-proxylab-handout/proxy.c.
use systems_programming.Base.{
  ltb, true, ℕ, suc, ◌+◌, ◌<◌, ◌≡◌, refl, inl, inr, some, List, [], ◌∷◌, ◌++◌, length,
  length-append, map, CStr, codes, arith, ap, subst,
}
use systems_programming.Sbuf.{int_max, done}
use systems_programming.Sbuf.Queue.{IsQueue, inserted, sbuf_insert-IsQueue, sbuf_remove-IsQueue}
use systems_programming.Logbuf.{Logbuf, logbuf_insert, logbuf_remove}
use systems_programming.Proxy.Parse.{strtok}
use systems_programming.Proxy.Parse.{max_object_size}
use systems_programming.Pool.{logging, log_copy, ended, of_outcome, log_line, logging_thread}

-- The log file: a line for each URL.
abbrev pub log_text : List ℕ → List CStr → CStr
log_text (t ∷ times) (url ∷ urls) = log_line t url ++ log_text times urls
log_text _ _ = []

-- The thread writes what the buffer holds, in order.
logging_thread-IsQueue :
    (times : List ℕ) (urls : List CStr) (log : Logbuf)
    → IsQueue log (map some urls)
    → length times ≡ length urls
    → (log' : Logbuf) × (logging_thread times log ≡ ended (log_text times urls, log'))
      × IsQueue log' []
unfolding logging_thread of_outcome logbuf_remove
logging_thread-IsQueue [] [] log q e = (log, refl, q)
logging_thread-IsQueue [] (url ∷ urls) log q e = absurd (omega arith)
logging_thread-IsQueue (t ∷ times) [] log q e = absurd (omega arith)
logging_thread-IsQueue (t ∷ times) (url ∷ urls) log q e =
    let (taken, q') = sbuf_remove-IsQueue log (some url ∷ map some urls) q in
    let (last, written, empty) = logging_thread-IsQueue times urls _ q' (omega arith) in
    (last, rw taken (rw written refl), empty)

map-append : (us vs : List CStr) → map some us ++ map some vs ≡ map some (us ++ vs)
map-append [] vs = refl
map-append (u ∷ us) vs = ap (λ t. some u ∷ t) (map-append us vs)

length-urls : (urls : List CStr) → length (map some urls) ≡ length urls
length-urls [] = refl
length-urls (u ∷ us) = ap suc (length-urls us)

-- A buffer of the log with room, which holds the URLs `urls`, and a request whose second word is `url`:
-- `logging` returns that word, and as many rounds of the logging thread as there are URLs then write a
-- line for each of them, in the order of their requests, and leave the buffer empty.
pub log_in_order :
    (log : Logbuf) (urls : List CStr) (buf method url rest more : CStr) (times : List ℕ)
    → IsQueue log (map some urls)
    → length urls < log.n
    → log.rear < int_max
    → length buf < max_object_size
    → strtok (codes " ") buf ≡ some (method, rest)
    → strtok (codes " ") rest ≡ some (url, more)
    → length times ≡ length urls + 1
    → (log' last : Logbuf) × (logging log buf ≡ done (url, log'))
      × (logging_thread times log' ≡ ended (log_text times (urls ++ (url ∷ [])), last))
      × IsQueue last []
unfolding logging log_copy logbuf_insert
log_in_order log urls buf method url rest more times q room small fits e₁ e₂ rounds =
    let short : ltb (length buf) max_object_size ≡ true = ground arith in
    elim (sbuf_insert-IsQueue log (map some urls) (some url) q small) [
      | inl (full, gone) ↦ absurd (omega (arith, length-urls urls))
      | inr (put, q') ↦
          let (last, written, empty) =
            logging_thread-IsQueue times (urls ++ (url ∷ [])) _
              (subst (IsQueue (inserted log (some url))) (map-append urls (url ∷ [])) q')
              (omega (arith, length-append urls (url ∷ []))) in
          (
            inserted log (some url),
            last,
            rw (short, logging) (rw (e₁, log_copy) (rw e₂ (rw put refl))),
            written,
            empty,
          )
    ]
