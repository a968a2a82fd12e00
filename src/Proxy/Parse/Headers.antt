-- ===== src/Proxy/Parse/Headers.antt =====
-- The loop over the headers in the request parser of the proxies.
use mathlib.Core.List.{append_assoc}
use systems_programming.Base.{
  ℕ, zero, suc, ◌≤◌, ◌≡◌, refl, if◌then◌else◌, Bool, true, false, ◌||◌, none, some, List, [], ◌∷◌,
  ◌++◌, length, length-append, CStr, codes, str_eq, arith, Bool-cases, inl, inr, ap, ◌∙◌,
}
use systems_programming.Proxy.Parse.{
  ok, elem, cut, skip, strtok, strchr, crlf, is_dropped, header_line, headers_from,
}

-- No byte of the text is a delimiter.
abbrev pub NoneOf : CStr → CStr → Type 0
NoneOf delim [] = Unit
NoneOf delim (c ∷ s) = (elem c delim ≡ false) × NoneOf delim s

-- A text that `strtok` takes whole.
abbrev pub IsToken : CStr → CStr → Type 0
IsToken delim [] = ⊥
IsToken delim (c ∷ s) = NoneOf delim (c ∷ s)

cut-append :
    (delim w : CStr) (d : ℕ) (rest : CStr)
    → NoneOf delim w
    → elem d delim ≡ true
    → cut delim (w ++ (d ∷ rest)) ≡ (w, rest)
unfolding cut
cut-append delim [] d rest h e = rw e
cut-append delim (c ∷ w) d rest h e = rw (h.0, cut-append delim w d rest h.1 e)

-- A token and its delimiter.
pub strtok-append :
    (delim w : CStr) (d : ℕ) (rest : CStr)
    → IsToken delim w
    → elem d delim ≡ true
    → strtok delim (w ++ (d ∷ rest)) ≡ some (w, rest)
unfolding strtok skip
strtok-append delim [] d rest h e = absurd h
strtok-append delim (c ∷ w) d rest h e =
    rw (h.0, strtok) (ap some (cut-append delim (c ∷ w) d rest h e))

-- `strtok` passes over delimiters.
pub strtok-skip :
    (delim : CStr) (d : ℕ) (s : CStr) → elem d delim ≡ true → strtok delim (d ∷ s) ≡ strtok delim s
unfolding strtok skip
strtok-skip delim d s e = rw (e, strtok)

pub strchr-append :
    (d : ℕ) (w rest : CStr) → NoneOf (d ∷ []) w → strchr d (w ++ (d ∷ rest)) ≡ some (w, rest)
unfolding strchr elem
strchr-append d [] rest h = ground arith
strchr-append d (c ∷ w) rest h = ground (arith, strchr-append d w rest h.1, h.0)

pub strchr-none : (d : ℕ) (w : CStr) → NoneOf (d ∷ []) w → strchr d w ≡ none
unfolding strchr elem
strchr-none d [] h = refl
strchr-none d (c ∷ w) h = ground (arith, strchr-none d w h.1, h.0)

pub record Header : Type 0 where
  pub name : CStr
  pub value : CStr

-- `Name:value`, with the space that mostly follows the colon in the value.
abbrev pub header_text : Header → CStr
header_text h = h.name ++ (b':' ∷ h.value)

-- The headers of a request, each with its line end.
abbrev pub headers_text : List Header → CStr
headers_text [] = []
headers_text (h ∷ hs) = header_text h ++ (13 ∷ 10 ∷ headers_text hs)

abbrev pub IsHeader : Header → Type 0
IsHeader h = NoneOf (b':' ∷ []) h.name × NoneOf crlf (header_text h)

abbrev pub AreHeaders : List Header → Type 0
AreHeaders [] = Unit
AreHeaders (h ∷ hs) = IsHeader h × AreHeaders hs

-- What the proxy makes of them: the ones that it keeps, as they stand, in order.
abbrev pub kept : List Header → CStr
kept [] = []
kept (h ∷ hs) = (if is_dropped h.name then [] else header_text h ++ crlf) ++ kept hs

abbrev pub has_host : List Header → Bool
has_host [] = false
has_host (h ∷ hs) =
    (if is_dropped h.name then false else str_eq h.name (codes "Host")) || has_host hs

header_line_lem :
    (h : Header)
    → IsHeader h
    → header_line (header_text h)
      ≡ ok (
        if is_dropped h.name then [] else header_text h ++ crlf,
        if is_dropped h.name then false else str_eq h.name (codes "Host"),
      )
unfolding header_line
header_line_lem h v =
    rw (strchr-append b':' h.name h.value v.0, header_line)
      (elim (Bool-cases (is_dropped h.name)) [ inl e ↦ rw e | inr e ↦ rw e ])

IsToken-of :
    (name value : CStr)
    → NoneOf crlf (name ++ (b':' ∷ value))
    → IsToken crlf (name ++ (b':' ∷ value))
IsToken-of [] value v = v
IsToken-of (c ∷ name) value v = v

strtok-end : (fuel : ℕ) → headers_from fuel (13 ∷ 10 ∷ []) ≡ ok ([], false)
unfolding headers_from strtok skip elem
strtok-end zero = refl
strtok-end (suc fuel) = refl

pub headers_from-skip : (fuel : ℕ) (s : CStr) → headers_from fuel (10 ∷ s) ≡ headers_from fuel s
unfolding headers_from elem strtok skip
headers_from-skip zero s = refl
headers_from-skip (suc fuel) s = rw (strtok-skip crlf 10 s refl)

-- One round of the loop, for a header and what follows it.
headers_from-cons :
    (fuel : ℕ) (h : Header) (rest : CStr) (out : CStr × Bool)
    → IsHeader h
    → headers_from fuel rest ≡ ok out
    → headers_from (suc fuel) (header_text h ++ (13 ∷ 10 ∷ rest))
      ≡ ok (
        (if is_dropped h.name then [] else header_text h ++ crlf) ++ out.0,
        (if is_dropped h.name then false else str_eq h.name (codes "Host")) || out.1,
      )
unfolding headers_from elem
headers_from-cons fuel h rest out v e =
    rw
      (
        strtok-append crlf (header_text h) 13 (10 ∷ rest) (IsToken-of h.name h.value v.1) refl,
        headers_from,
      )
      (rw (header_line_lem h v) (rw (headers_from-skip fuel rest ∙ e)))

-- With fuel for their text, well-formed headers up to the empty line are taken one by one: those that the proxy sends itself are
-- dropped, the others are kept as they stand, and a `Host` among them is noticed.
pub headers_from-text :
    (fuel : ℕ) (hs : List Header)
    → AreHeaders hs
    → length (headers_text hs) ≤ fuel
    → headers_from fuel (headers_text hs ++ crlf) ≡ ok (kept hs, has_host hs)
headers_from-text fuel [] v le = strtok-end fuel
headers_from-text zero (h ∷ hs) v le =
    absurd (omega (arith, length-append (header_text h) (13 ∷ 10 ∷ headers_text hs)))
headers_from-text (suc fuel) (h ∷ hs) v le =
    rw (append_assoc (header_text h) (13 ∷ 10 ∷ headers_text hs) crlf) (
      headers_from-cons fuel h (headers_text hs ++ crlf) (kept hs, has_host hs) v.0
        (headers_from-text fuel hs v.1
          (omega (arith, length-append (header_text h) (13 ∷ 10 ∷ headers_text hs)))))
