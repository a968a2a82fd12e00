-- ===== src/Resolver/Query/Sent.antt =====
-- The query that resolver.c sends.
use systems_programming.Base.{
  ℕ, ◌+◌, ◌%◌, ◌^◌, ◌<◌, ◌≡◌, List, [], ◌∷◌, ◌++◌, length, length-append, take, drop,
  take-append_left, take-length, CStr, arith, ap, ◌∙◌, sym,
}
use systems_programming.Resolver.{name_ascii_to_wire, swap_bytes_in_short}
use systems_programming.Resolver.Names.{dotted, encoded, AreLabels, wire_from-dotted}
use systems_programming.Resolver.Query.{create_dns_query}

length-encoded : (l : CStr) (ls : List CStr) → length (encoded (l ∷ ls)) ≡ length (dotted l ls) + 2
length-encoded l [] = omega (arith, length-append l (0 ∷ []))
length-encoded l (m ∷ ls) = omega (
  arith,
  length-encoded m ls,
  length-append l (encoded (m ∷ ls)),
  length-append l (b'.' ∷ dotted m ls),
)

-- The query for a name of labels of 1 to 191 bytes: an identifier of two random bytes, the header of
-- one question with recursion, the encoded name, and the type and class of an Internet address. The
-- bytes that were on the stack before are all overwritten.
pub create_dns_query-dotted :
    (first second : ℕ) (after : CStr) (dest : List ℕ) (l : CStr) (ls : List CStr)
    → AreLabels (b'.' ∷ after) (l ∷ ls)
    → create_dns_query first second after dest (dotted l ls)
      ≡ (first % 256)
        ∷ (second % 256)
        ∷ 1
        ∷ 0
        ∷ 0
        ∷ 1
        ∷ 0
        ∷ 0
        ∷ 0
        ∷ 0
        ∷ 0
        ∷ 0
        ∷ (encoded (l ∷ ls) ++ (0 ∷ 1 ∷ 0 ∷ 1 ∷ []))
unfolding create_dns_query name_ascii_to_wire
create_dns_query-dotted first second after dest l ls h =
    let out = wire_from-dotted (length (dotted l ls) + 1) after l ls h (omega arith) in
    let size = length-encoded l ls in
    rw out (
      ap
        (λ t.
          (first % 256)
          ∷ (second % 256)
          ∷ 1
          ∷ 0
          ∷ 0
          ∷ 1
          ∷ 0
          ∷ 0
          ∷ 0
          ∷ 0
          ∷ 0
          ∷ 0
          ∷ (t ++ (0 ∷ 1 ∷ 0 ∷ 1 ∷ [])))
        (take-append_left (length (dotted l ls) + 2) (encoded (l ∷ ls))
            (drop (length (encoded (l ∷ ls))) dest) (omega arith)
          ∙ ap (λ k. take k (encoded (l ∷ ls))) (sym size)
          ∙ take-length (encoded (l ∷ ls))))

-- On an `unsigned short`, `swap_bytes_in_short` undoes itself.
pub swap_bytes_in_short-twice :
    (s : ℕ) → s < 2 ^ 16 → swap_bytes_in_short (swap_bytes_in_short s) ≡ s
unfolding swap_bytes_in_short
swap_bytes_in_short-twice s h = omega arith
