-- ===== src/Resolver.antt =====
-- dnsresolverlab-handout/resolver.c: domain names as text and on the wire. Byte arrays are lists.
pub mod Names
pub mod Query
pub mod Main
pub mod Dump
pub mod Wire
use systems_programming.Base.{
  ℕ, zero, suc, ◌+◌, ◌*◌, ◌/◌, ◌^◌, ◌%◌, ◌==◌, leb, ltb, if◌then◌else◌, Bool, true, false, ◌&&◌,
  Option, none, some, List, [], ◌∷◌, ◌++◌, length, get_elem?, take, drop, map, CStr, codes, str_eq,
}
use systems_programming.Proxy.Parse.{strtok}
use systems_programming.Proxy.Events.{until_nul}

abbrev pub res_max : ℕ
res_max = 65536

-- The last byte taken off if it is a dot.
unfoldable pub drop_dot : CStr → CStr
drop_dot [] = []
drop_dot (c ∷ []) = if c == b'.' then [] else c ∷ []
drop_dot (c ∷ d ∷ s) = c ∷ drop_dot (d ∷ s)

abbrev pub to_lower : ℕ → ℕ
to_lower c = if leb b'A' c && leb c b'Z' then c + 32 else c

-- `canonicalize_name`; on the empty text it looks at the byte in front of it (`none`).
unfoldable pub canonicalize_name : CStr → Option CStr
canonicalize_name [] = none
canonicalize_name (c ∷ s) =
    if str_eq (c ∷ s) (codes ".") then some (c ∷ s) else some (map to_lower (drop_dot (c ∷ s)))

-- The loop of `name_ascii_to_wire`: a byte for the length of each label, the label, and a zero byte
-- at the end. A label takes at least one byte of the text, so its length is fuel enough.
unfoldable pub wire_from : ℕ → CStr → CStr → List ℕ
wire_from zero delim name = 0 ∷ []
wire_from (suc fuel) delim name = elim (strtok delim name) [
  | none ↦ 0 ∷ []
  | some (token, rest) ↦ (length token % 256) ∷ (token ++ wire_from fuel delim rest)
]

-- `name_ascii_to_wire`. The array `delim` holds a dot and no NUL: `after` is what follows it in
-- memory up to the next NUL.
unfoldable pub name_ascii_to_wire : CStr → CStr → List ℕ
name_ascii_to_wire after name = wire_from (length name + 1) (b'.' ∷ after) name

-- How the loop of `name_ascii_from_wire` ends: with the text in `name`, by an access out of range,
-- or not within the given rounds.
pub data Decoded : Type 0 where
  text : CStr → Decoded
  fault : Decoded
  running : Decoded

-- Each label goes behind a dot, in the place of its length.
unfoldable pub put_label : CStr → Decoded → Decoded
put_label label (text s) = text (b'.' ∷ (label ++ s))
put_label label fault = fault
put_label label running = running

-- The loop, with the number of the bytes that stand in `name`. A byte from 0xC0 on is followed by a
-- place to go on from; its own bits are not part of that.
unfoldable pub labels_from : ℕ → List ℕ → ℕ → ℕ → Decoded
labels_from zero wire index copied = running
labels_from (suc fuel) wire index copied = elim (get_elem? wire index) [
  | none ↦ fault
  | some size ↦
      let jump : Decoded = elim (get_elem? wire (index + 1)) [
        | none ↦ fault
        | some target ↦ labels_from fuel wire target copied
      ] in
      let next : Decoded = labels_from fuel wire (index + size + 1) (copied + size + 1) in
      if size == 0
      then text []
      else if leb 192 size
      then jump
      else if leb (index + size + 1) (length wire) && ltb (copied + size + 1) res_max
      then put_label (take size (drop (index + 1) wire)) next
      else fault
]

-- `strcpy(return_me, name + 1)`: the text behind its first dot. With no label `name + 1` was never
-- written.
unfoldable pub first_dropped : Decoded → Decoded
first_dropped (text []) = fault
first_dropped (text (c ∷ s)) = text (until_nul s)
first_dropped other = other

unfoldable pub canonical : Decoded → Decoded
canonical (text s) = elim (canonicalize_name s) [ none ↦ fault | some t ↦ text t ]
canonical other = other

-- `name_ascii_from_wire`
unfoldable pub name_ascii_from_wire : ℕ → List ℕ → ℕ → Decoded
name_ascii_from_wire fuel wire index = canonical (first_dropped (labels_from fuel wire index 0))

-- `swap_bytes_in_short` on an `unsigned short`; the two parts of the `|` have no bit in common.
unfoldable pub swap_bytes_in_short : ℕ → ℕ
swap_bytes_in_short s = s * 2 ^ 8 % 2 ^ 16 + s / 2 ^ 8
