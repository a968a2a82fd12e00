-- ===== src/Resolver/Dump.antt =====
-- `print_bytes` of dnsresolverlab-handout/resolver.c: a listing of an array for debugging.
pub mod Rows
pub mod Cells
use systems_programming.Base.{
  ℕ, zero, suc, ◌+◌, ◌-◌, ◌*◌, ◌/◌, ◌%◌, ◌==◌, leb, ltb, if◌then◌else◌, Bool, ◌&&◌, none, some,
  List, [], ◌∷◌, ◌++◌, length, get_elem?, CStr, codes,
}

abbrev pub hex_digit : ℕ → ℕ
hex_digit d = if leb d 9 then b'0' + d else b'A' + d - 10

-- `%X`, with one round for each digit.
unfoldable pub hex_from : ℕ → ℕ → CStr → CStr
hex_from zero n acc = acc
hex_from (suc fuel) n acc =
    let more = hex_from fuel (n / 16) (hex_digit (n % 16) ∷ acc) in
    if leb n 15 then hex_digit n ∷ acc else more

-- `%02X`
unfoldable pub hex : ℕ → CStr
unfolding hex_from
hex n = if leb n 15 then b'0' ∷ hex_digit n ∷ [] else hex_from (n + 1) n []

-- The length, up to a whole number of rows of eight.
unfoldable pub byteslen_adjusted : ℕ → ℕ
byteslen_adjusted byteslen = if byteslen % 8 == 0 then byteslen else (byteslen / 8 + 1) * 8

abbrev pub is_visible : ℕ → Bool
is_visible c = leb b'!' c && leb c b'~'

abbrev pub shown : ℕ → CStr
shown c = if is_visible c then b' ' ∷ c ∷ [] else codes " ."

-- The body of the inner loop. The array has `byteslen` bytes, so that the access is in range.
unfoldable pub char_at : List ℕ → ℕ → ℕ → CStr
char_at bytes adjusted j =
    if leb adjusted j
    then codes "  "
    else if leb (length bytes) j
    then codes "  "
    else elim (get_elem? bytes j) [ none ↦ [] | some c ↦ shown c ]

-- The inner loop, over `n` bytes from `j` on.
unfoldable pub chars_from : List ℕ → ℕ → ℕ → ℕ → CStr
chars_from bytes adjusted j zero = []
chars_from bytes adjusted j (suc n) =
    char_at bytes adjusted j ++ chars_from bytes adjusted (suc j) n

-- What stands in front of byte `i`: the characters of the row that ends and the offset of the next one,
-- or the gap in the middle of a row.
unfoldable pub before : List ℕ → ℕ → ℕ → CStr
before bytes adjusted i =
    if i % 8 == 0
    then (if ltb 0 i then chars_from bytes adjusted (i - 8) 8 else [])
      ++ (if ltb i adjusted then b'\n' ∷ (hex i ++ codes ": ") else [])
    else if i % 4 == 0
    then codes " "
    else []

unfoldable pub byte_at : List ℕ → ℕ → ℕ → CStr
byte_at bytes adjusted i =
    if leb adjusted i
    then []
    else if leb (length bytes) i
    then codes "   "
    else elim (get_elem? bytes i) [ none ↦ [] | some c ↦ hex c ++ codes " " ]

-- The outer loop, `n` rounds from `i` on.
unfoldable pub listing_from : List ℕ → ℕ → ℕ → ℕ → CStr
listing_from bytes adjusted i zero = []
listing_from bytes adjusted i (suc n) =
    before bytes adjusted i ++ (byte_at bytes adjusted i ++ listing_from bytes adjusted (suc i) n)

-- `print_bytes`, on an array of `byteslen` bytes: what it prints.
unfoldable pub print_bytes : List ℕ → CStr
print_bytes bytes =
    listing_from bytes (byteslen_adjusted (length bytes)) 0 (byteslen_adjusted (length bytes) + 1)
    ++ codes "\n"
