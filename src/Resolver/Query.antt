-- ===== src/Resolver/Query.antt =====
-- The messages of dnsresolverlab-handout/resolver.c: the query, and the answers of a response.
pub mod Answers
pub mod Sent
pub mod Entries
use systems_programming.Base.{
  ◌>>=◌, ℕ, zero, suc, ◌+◌, ◌*◌, ◌%◌, ◌==◌, leb, if◌then◌else◌, Option, none, some, List, [], ◌∷◌,
  ◌++◌, length, get_elem?, take, drop, CStr, codes, decimal,
}
use systems_programming.Resolver.{
  Decoded, text, fault, running, name_ascii_to_wire, name_ascii_from_wire,
}

-- `create_dns_query`, with what `random` returned and what the array `dest` held before.
unfoldable pub create_dns_query : ℕ → ℕ → CStr → List ℕ → CStr → List ℕ
create_dns_query first second after dest qname =
    (first % 256)
    ∷ (second % 256)
    ∷ 1
    ∷ 0
    ∷ 0
    ∷ 1
    ∷ 0
    ∷ 0
    ∷ 0
    ∷ 0
    ∷ 0
    ∷ 0
    ∷ (take (length qname + 2)
          (name_ascii_to_wire after qname ++ drop (length (name_ascii_to_wire after qname)) dest)
        ++ (0 ∷ 1 ∷ 0 ∷ 1 ∷ []))

abbrev pub address_text : ℕ → ℕ → ℕ → ℕ → CStr
address_text a b c d =
    decimal a
    ++ (codes "." ++ (decimal b ++ (codes "." ++ (decimal c ++ (codes "." ++ decimal d)))))

-- `get_answer_address`
unfoldable pub get_answer_address : List ℕ → ℕ → Option CStr
get_answer_address wire index = do
  a ← get_elem? wire index
  b ← get_elem? wire (index + 1)
  c ← get_elem? wire (index + 2)
  d ← get_elem? wire (index + 3)
  some (address_text a b c d)

-- The length of the name that an answer begins with: two bytes of a pointer, or up to a zero byte.
unfoldable pub zero_at : List ℕ → Option ℕ
zero_at [] = none
zero_at (c ∷ s) = let rest = zero_at s in if c == 0 then some 0 else (rest >>= λ n. some (suc n))

unfoldable pub answer_name_len : List ℕ → ℕ → Option ℕ
answer_name_len wire index = do
  first ← get_elem? wire index
  if leb 192 first then some 2 else (zero_at (drop index wire) >>= λ n. some (n + 1))

-- The value of an answer whose data begin at `index`: a name for the type 5, else an address.
unfoldable pub answer_value : ℕ → List ℕ → ℕ → ℕ → Option CStr
answer_value fuel wire kind index =
    if kind == 5
    then elim (name_ascii_from_wire fuel wire index) [
      | text s ↦ some s
      | fault ↦ none
      | running ↦ none
    ]
    else get_answer_address wire index

-- A round of the loop of `resolve`: the value of an answer, and where the next one begins.
unfoldable pub answer_at : ℕ → List ℕ → ℕ → Option (CStr × ℕ)
answer_at fuel wire index = do
  name_len ← answer_name_len wire index
  kind ← get_elem? wire (index + name_len + 1)
  value ← answer_value fuel wire kind (index + name_len + 10)
  high ← get_elem? wire (index + name_len + 8)
  low ← get_elem? wire (index + name_len + 9)
  some (value, index + name_len + 10 + (high * 256 + low))

-- The loop over the answers, with fuel for each name.
unfoldable pub answers_from : ℕ → ℕ → List ℕ → ℕ → Option (List CStr)
unfolding answer_at
answers_from zero fuel wire index = some []
answers_from (suc total) fuel wire index = do
  (value, next) ← answer_at fuel wire index
  rest ← answers_from total fuel wire next
  some (value ∷ rest)

-- `resolve`, behind `send_recv_message`: the answers of the response to a query of a name. The count
-- is a big-endian number in bytes 6 and 7, and the answers stand behind a copy of the query.
unfoldable pub resolve : ℕ → CStr → List ℕ → Option (List CStr)
resolve fuel qname response = do
  high ← get_elem? response 6
  low ← get_elem? response 7
  answers_from (high * 256 + low) fuel response (12 + length qname + 2 + 4)
