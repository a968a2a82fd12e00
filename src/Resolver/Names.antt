-- ===== src/Resolver/Names.antt =====
-- Domain names to the wire and back.
use mathlib.Core.List.{append-nil, append_assoc}
use native.Mathlib.Nat.{mod-eq_of_lt}
use systems_programming.Base.{
  drop-add, take-append_left, take-length, ℕ, zero, suc, ◌+◌, ◌%◌, ◌<◌, ◌≡◌, refl, ◌==◌, leb, ltb,
  true, false, some, List, [], ◌∷◌, ◌++◌, length, length-append, get_elem?, take, drop, CStr, arith,
  ap, ap₂, ◌∙◌,
}
use systems_programming.Proxy.Parse.{strtok, skip, cut, elem}
use systems_programming.Proxy.Parse.Headers.{NoneOf, IsToken, strtok-append}
use systems_programming.Proxy.Events.{until_nul}
use systems_programming.Resolver.{
  res_max, wire_from, name_ascii_to_wire, text, put_label, labels_from, first_dropped, canonical,
  name_ascii_from_wire,
}
use systems_programming.Resolver.Wire.{wire_from-step, wire_from-nil}

-- Labels with the dots between them.
abbrev pub dotted : CStr → List CStr → CStr
dotted l [] = l
dotted l (m ∷ ls) = l ++ (b'.' ∷ dotted m ls)

-- And on the wire.
abbrev pub encoded : List CStr → List ℕ
encoded [] = 0 ∷ []
encoded (l ∷ ls) = length l ∷ (l ++ encoded ls)

-- A label has 1 to 191 bytes, none of them a delimiter or zero.
abbrev pub IsLabel : CStr → CStr → Type 0
IsLabel delim l = IsToken delim l × (length l < 192) × NoneOf (0 ∷ []) l

abbrev pub AreLabels : CStr → List CStr → Type 0
AreLabels delim [] = Unit
AreLabels delim (l ∷ ls) = IsLabel delim l × AreLabels delim ls

cut-last : (delim w : CStr) → NoneOf delim w → cut delim w ≡ (w, [])
unfolding cut
cut-last delim [] h = refl
cut-last delim (c ∷ w) h = rw (h.0, cut-last delim w h.1)

strtok-last : (delim w : CStr) → IsToken delim w → strtok delim w ≡ some (w, [])
unfolding strtok skip
strtok-last delim [] h = absurd h
strtok-last delim (c ∷ w) h = rw (h.0, strtok) (ap some (cut-last delim (c ∷ w) h))

IsToken-length : (delim w : CStr) → IsToken delim w → 0 < length w
IsToken-length delim [] h = absurd h
IsToken-length delim (c ∷ w) h = omega arith

pub wire_from-dotted :
    (fuel : ℕ) (after l : CStr) (ls : List CStr)
    → AreLabels (b'.' ∷ after) (l ∷ ls)
    → length (dotted l ls) < fuel
    → wire_from fuel (b'.' ∷ after) (dotted l ls) ≡ encoded (l ∷ ls)
unfolding wire_from elem
wire_from-dotted zero after l ls h lt = absurd (omega arith)
wire_from-dotted (suc fuel) after l [] h lt =
    let small : length l % 256 ≡ length l = mod-eq_of_lt (omega (arith, h.0.1)) in
    wire_from-step fuel (b'.' ∷ after) l l [] (strtok-last (b'.' ∷ after) l h.0.0)
    ∙ ap₂ (λ a t. a ∷ (l ++ t)) small (wire_from-nil fuel (b'.' ∷ after))
wire_from-dotted (suc fuel) after l (m ∷ ls) h lt =
    let small : length l % 256 ≡ length l = mod-eq_of_lt (omega (arith, h.0.1)) in
    let left : length (dotted m ls) < fuel = omega (arith, length-append l (b'.' ∷ dotted m ls)) in
    wire_from-step fuel (b'.' ∷ after) (dotted l (m ∷ ls)) l (dotted m ls)
      (strtok-append (b'.' ∷ after) l b'.' (dotted m ls) h.0.0 refl)
    ∙ ap₂ (λ a t. a ∷ (l ++ t)) small (wire_from-dotted fuel after m ls h.1 left)

drop-cons :
    (xs : List ℕ) (i y : ℕ) (ys : List ℕ)
    → drop i xs ≡ y ∷ ys
    → (get_elem? xs i ≡ some y) × (drop (i + 1) xs ≡ ys) × (length xs ≡ i + 1 + length ys)
drop-cons [] zero y ys e = cc
drop-cons [] (suc i) y ys e = cc
drop-cons (x ∷ xs) zero y ys e = (cc, cc, omega (arith, ap length e))
drop-cons (x ∷ xs) (suc i) y ys e =
    let (a, b, c) = drop-cons xs i y ys e in
    (a, ap (λ k. drop k (x ∷ xs)) (next i) ∙ b, omega arith)
  where
    next : (i : ℕ) → suc i + 1 ≡ suc (i + 1)
    next i = omega arith

drop-append : (l m : List ℕ) → drop (length l) (l ++ m) ≡ m
drop-append [] m = refl
drop-append (x ∷ l) m = drop-append l m

abbrev dots : List CStr → CStr
dots [] = []
dots (l ∷ ls) = b'.' ∷ (l ++ dots ls)

dots-dotted : (l : CStr) (ls : List CStr) → l ++ dots ls ≡ dotted l ls
dots-dotted l [] = append-nil l
dots-dotted l (m ∷ ls) = ap (λ t. l ++ (b'.' ∷ t)) (dots-dotted m ls)

labels_from-encoded :
    (fuel : ℕ) (delim : CStr) (ls : List CStr) (wire post : List ℕ) (index copied : ℕ)
    → AreLabels delim ls
    → drop index wire ≡ encoded ls ++ post
    → length ls < fuel
    → copied + length (dots ls) < res_max
    → labels_from fuel wire index copied ≡ text (dots ls)
unfolding labels_from put_label
labels_from-encoded zero delim ls wire post index copied h e lt small = absurd (omega arith)
labels_from-encoded (suc fuel) delim [] wire post index copied h e lt small =
    let (here, more, size) = drop-cons wire index 0 post e in rw (here, labels_from) refl
labels_from-encoded (suc fuel) delim (l ∷ ls) wire post index copied h e lt small =
    let (here, more, size) = drop-cons wire index (length l) ((l ++ encoded ls) ++ post) e in
    let joined : drop (index + 1) wire ≡ l ++ (encoded ls ++ post) =
      more ∙ append_assoc l (encoded ls) post in
    let rest : drop (index + length l + 1) wire ≡ encoded ls ++ post =
      ap (λ k. drop k wire) (omega arith)
      ∙ drop-add (index + 1) (length l) wire
      ∙ ap (drop (length l)) joined
      ∙ drop-append l (encoded ls ++ post) in
    let label : take (length l) (drop (index + 1) wire) ≡ l =
      ap (take (length l)) joined
      ∙ take-append_left (length l) l (encoded ls ++ post) (omega arith)
      ∙ take-length l in
    let some_byte : (length l == 0) ≡ false = ground (arith, IsToken-length delim l h.0.0) in
    let plain : leb 192 (length l) ≡ false = ground (arith, h.0.1) in
    let inside : leb (index + length l + 1) (length wire) ≡ true =
      ground (arith, size, length-append (l ++ encoded ls) post, length-append l (encoded ls)) in
    let room : ltb (copied + length l + 1) res_max ≡ true =
      ground (arith, small, length-append l (dots ls)) in
    let ih =
      labels_from-encoded fuel delim ls wire post (index + length l + 1) (copied + length l + 1) h.1
        rest (omega arith) (omega (arith, length-append l (dots ls))) in
    rw (here, labels_from) (rw (some_byte, plain, inside, room, label, ih) refl)

until_nul-append : (s t : CStr) → NoneOf (0 ∷ []) s → until_nul t ≡ t → until_nul (s ++ t) ≡ s ++ t
unfolding until_nul elem
until_nul-append [] t h e = e
until_nul-append (c ∷ s) t h e =
    let other : (c == 0) ≡ false = ground arith in
    rw other (ap (λ r. c ∷ r) (until_nul-append s t h.1 e))

until_nul-dots :
    (delim : CStr) (ls : List CStr) → AreLabels delim ls → until_nul (dots ls) ≡ dots ls
unfolding until_nul
until_nul-dots delim [] h = refl
until_nul-dots delim (l ∷ ls) h =
    ap (λ t. b'.' ∷ t) (until_nul-append l (dots ls) h.0.2 (until_nul-dots delim ls h.1))

-- A name of labels of 1 to 191 bytes, written to the wire and read back from anywhere in a message,
-- with a round for each label and the end, and with room in the buffer: the text in canonical form.
pub name_ascii_from_wire-to_wire :
    (fuel : ℕ) (after l : CStr) (ls : List CStr) (pre post : List ℕ)
    → AreLabels (b'.' ∷ after) (l ∷ ls)
    → length (l ∷ ls) < fuel
    → length (dotted l ls) + 1 < res_max
    → name_ascii_from_wire fuel
        (pre ++ (name_ascii_to_wire after (dotted l ls) ++ post))
        (length pre)
      ≡ canonical (text (dotted l ls))
unfolding name_ascii_from_wire name_ascii_to_wire first_dropped
name_ascii_from_wire-to_wire fuel after l ls pre post h lt small =
    let out = wire_from-dotted (length (dotted l ls) + 1) after l ls h (omega arith) in
    let size : length (dots (l ∷ ls)) ≡ length (dotted l ls) + 1 =
      let z = ap length (dots-dotted l ls) in omega arith in
    let read =
      labels_from-encoded fuel (b'.' ∷ after) (l ∷ ls)
        (pre ++ (wire_from (length (dotted l ls) + 1) (b'.' ∷ after) (dotted l ls) ++ post)) post
        (length pre) 0 h (drop-append pre _ ∙ ap (λ t. t ++ post) out) lt (omega arith) in
    ap (λ d. canonical (first_dropped d)) read
    ∙ ap (λ t. canonical (text t))
        (until_nul-append l (dots ls) h.0.2 (until_nul-dots (b'.' ∷ after) ls h.1)
          ∙ dots-dotted l ls)
