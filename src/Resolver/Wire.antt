-- ===== src/Resolver/Wire.antt =====
-- Domain names on the wire: what one round of the encoder does, and how long its result is.
use systems_programming.Base.{
  ◌⊎◌, ℕ, zero, suc, ◌+◌, ◌%◌, ◌≤◌, ◌≡◌, refl, none, some, List, [], ◌∷◌, ◌++◌, length,
  length-append, get_elem?, CStr, arith, Bool-cases, Option-cases, inl, inr, ap, ◌∙◌, sym,
}
use systems_programming.Proxy.Parse.{strtok, skip, cut, elem}
use systems_programming.Resolver.{wire_from, name_ascii_to_wire, running, labels_from}

-- A compressed name that points at itself is read for ever.
pub labels_from-loop :
    (fuel : ℕ) (wire : List ℕ) (index copied : ℕ)
    → get_elem? wire index ≡ some 192
    → get_elem? wire (index + 1) ≡ some index
    → labels_from fuel wire index copied ≡ running
unfolding labels_from
labels_from-loop zero wire index copied e q = refl
labels_from-loop (suc fuel) wire index copied e q =
    rw (e, labels_from) (rw q (labels_from-loop fuel wire index copied e q))

-- A cut takes the delimiter, too, if it finds one.
cut-length :
    (delim s : CStr)
    → (((cut delim s).1 ≡ []) × (length (cut delim s).0 ≤ length s))
      ⊎ (length (cut delim s).0 + length (cut delim s).1 + 1 ≤ length s)
unfolding cut
cut-length delim [] = inl (refl, omega arith)
cut-length delim (c ∷ s) = elim (Bool-cases (elem c delim)) [
  | inl e ↦ rw e (inr (omega arith))
  | inr e ↦ rw e (elim (cut-length delim s) [
    | inl (none_left, le) ↦ inl (none_left, omega arith)
    | inr lt ↦ inr (omega arith)
  ])
]

skip-length : (delim s : CStr) → length (skip delim s) ≤ length s
unfolding skip
skip-length delim [] = omega arith
skip-length delim (c ∷ s) = ground (arith, skip-length delim s)

-- What `strtok` takes from a text.
strtok-length :
    (delim s token rest : CStr)
    → strtok delim s ≡ some (token, rest)
    → ((rest ≡ []) × (length token ≤ length s)) ⊎ (length token + length rest + 1 ≤ length s)
unfolding strtok
strtok-length delim s token rest e = go (skip delim s) (skip-length delim s) e
  where
    go :
        (t : CStr)
        → length t ≤ length s
        → (elim t [ [] ↦ none | c ∷ r ↦ some (cut delim (c ∷ r)) ]) ≡ some (token, rest)
        → ((rest ≡ []) × (length token ≤ length s)) ⊎ (length token + length rest + 1 ≤ length s)
    go [] le e = cc
    go (c ∷ r) le e =
        let t : (cut delim (c ∷ r)).0 ≡ token = cc in
        let u : (cut delim (c ∷ r)).1 ≡ rest = cc in
        elim (cut-length delim (c ∷ r)) [
          | inl (none_left, short) ↦ inl (sym u ∙ none_left, omega (arith, ap length t))
          | inr short ↦ inr (omega (arith, ap length t, ap length u))
        ]

pub wire_from-step :
    (fuel : ℕ) (delim name token rest : CStr)
    → strtok delim name ≡ some (token, rest)
    → wire_from (suc fuel) delim name ≡ (length token % 256) ∷ (token ++ wire_from fuel delim rest)
unfolding wire_from
wire_from-step fuel delim name token rest e = rw (e, wire_from) refl

wire_from-end :
    (fuel : ℕ) (delim name : CStr)
    → strtok delim name ≡ none
    → wire_from (suc fuel) delim name ≡ 0 ∷ []
unfolding wire_from
wire_from-end fuel delim name e = rw (e, wire_from) refl

pub wire_from-nil : (fuel : ℕ) (delim : CStr) → wire_from fuel delim [] ≡ 0 ∷ []
unfolding wire_from strtok skip
wire_from-nil zero delim = refl
wire_from-nil (suc fuel) delim = refl

wire_from-length :
    (fuel : ℕ) (delim name : CStr) → length (wire_from fuel delim name) ≤ length name + 2
unfolding wire_from
wire_from-length zero delim name = omega arith
wire_from-length (suc fuel) delim name = elim (Option-cases (strtok delim name)) [
  | inl e ↦ rw (wire_from-end fuel delim name e) (omega arith)
  | inr ((token, rest), e) ↦
      let total = length-append token (wire_from fuel delim rest) in
      rw (wire_from-step fuel delim name token rest e)
        (elim (strtok-length delim name token rest e) [
          | inl (none_left, short) ↦
              let last =
                ap length (ap (wire_from fuel delim) none_left ∙ wire_from-nil fuel delim) in
              omega arith
          | inr short ↦ omega (arith, wire_from-length fuel delim rest)
        ])
]

-- A name on the wire takes at most two bytes more than its text, the room that `create_dns_query`
-- gives it, whatever the text is and whatever follows the delimiter in memory.
pub name_ascii_to_wire-length :
    (after name : CStr) → length (name_ascii_to_wire after name) ≤ length name + 2
unfolding name_ascii_to_wire
name_ascii_to_wire-length after name = wire_from-length (length name + 1) (b'.' ∷ after) name
