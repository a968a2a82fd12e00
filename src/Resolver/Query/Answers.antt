-- ===== src/Resolver/Query/Answers.antt =====
-- `resolve` of resolver.c on the responses that name servers send.
use systems_programming.Base.{
  ℕ, ◌+◌, ◌*◌, ◌≡◌, refl, leb, true, some, List, [], ◌∷◌, length, get_elem?, get_elem?-drop, drop,
  drop-add, map, CStr, arith, ap, ◌∙◌,
}
use systems_programming.Resolver.Query.{
  address_text, get_answer_address, answer_name_len, answer_value, answer_at, answers_from, resolve,
}

-- An answer of type A: a pointer for the name, class, time to live, and an address.
pub record Address : Type 0 where
  pub pointer : ℕ × ℕ
  pub class_and_time : ℕ × ℕ × ℕ × ℕ × ℕ × ℕ
  pub bytes : ℕ × ℕ × ℕ × ℕ

abbrev pub answer_bytes : Address → List ℕ → List ℕ
answer_bytes r rest =
    let (p, q) = r.pointer in
    let (c, d, t, u, v, w) = r.class_and_time in
    let (i, j, k, l) = r.bytes in
    p ∷ q ∷ 0 ∷ 1 ∷ c ∷ d ∷ t ∷ u ∷ v ∷ w ∷ 0 ∷ 4 ∷ i ∷ j ∷ k ∷ l ∷ rest

abbrev pub all_bytes : List Address → List ℕ → List ℕ
all_bytes [] post = post
all_bytes (r ∷ rs) post = answer_bytes r (all_bytes rs post)

abbrev pub printed : Address → CStr
printed r = let (i, j, k, l) = r.bytes in address_text i j k l

-- A pointer begins with two set bits.
abbrev pub ArePointers : List Address → Type 0
ArePointers [] = Unit
ArePointers (r ∷ rs) = (leb 192 r.pointer.0 ≡ true) × ArePointers rs

at :
    (wire : List ℕ) (index k j : ℕ) (ys : List ℕ)
    → drop index wire ≡ ys
    → j ≡ index + k
    → get_elem? wire j ≡ get_elem? ys k
at wire index k j ys e q =
    ap (get_elem? wire) q ∙ get_elem?-drop wire index k ∙ ap (λ t. get_elem? t k) e

address_at :
    (wire ys : List ℕ) (index a b c d : ℕ)
    → drop index wire ≡ a ∷ b ∷ c ∷ d ∷ ys
    → get_answer_address wire index ≡ some (address_text a b c d)
unfolding get_answer_address
address_at wire ys index a b c d e = rw (at wire index 0 index _ e (omega arith)) (
    rw (at wire index 1 (index + 1) _ e refl)
      (rw (at wire index 2 (index + 2) _ e refl) (rw (at wire index 3 (index + 3) _ e refl) refl)))

pointer_at :
    (wire ys : List ℕ) (index p : ℕ)
    → drop index wire ≡ p ∷ ys
    → leb 192 p ≡ true
    → answer_name_len wire index ≡ some 2
unfolding answer_name_len
pointer_at wire ys index p e h = rw (at wire index 0 index _ e (omega arith)) (rw h refl)

further :
    (wire ys : List ℕ) (index k j : ℕ)
    → drop index wire ≡ ys
    → j ≡ index + k
    → drop j wire ≡ drop k ys
further wire ys index k j e q = ap (λ t. drop t wire) q ∙ drop-add index k wire ∙ ap (drop k) e

answer_at-address :
    (r : Address) (fuel : ℕ) (wire ys : List ℕ) (index : ℕ)
    → leb 192 r.pointer.0 ≡ true
    → drop index wire ≡ answer_bytes r ys
    → answer_at fuel wire index ≡ some (printed r, index + 2 + 10 + (0 * 256 + 4))
unfolding answer_at answer_value
answer_at-address r fuel wire ys index h e =
    let name = pointer_at wire _ index _ e h in
    let kind = at wire index 3 (index + 2 + 1) _ e (omega arith) in
    let high = at wire index 10 (index + 2 + 8) _ e (omega arith) in
    let low = at wire index 11 (index + 2 + 9) _ e (omega arith) in
    let value =
      address_at wire _ (index + 2 + 10) _ _ _ _
        (further wire _ index 12 (index + 2 + 10) e (omega arith)) in
    rw name (rw kind (rw value (rw high (rw low refl))))

pub answers_from-all_bytes :
    (rs : List Address) (fuel : ℕ) (wire post : List ℕ) (index : ℕ)
    → ArePointers rs
    → drop index wire ≡ all_bytes rs post
    → answers_from (length rs) fuel wire index ≡ some (map printed rs)
unfolding answers_from
answers_from-all_bytes [] fuel wire post index h e = refl
answers_from-all_bytes (r ∷ rs) fuel wire post index h e =
    let rest =
      answers_from-all_bytes rs fuel wire post (index + 2 + 10 + (0 * 256 + 4)) h.1
        (further wire _ index 16 _ e (omega arith)) in
    rw (answer_at-address r fuel wire (all_bytes rs post) index h.0 e) (rw rest refl)

-- A response whose count is that of its answers, which stand behind the copy of the query, each with
-- a pointer for its name and with an address: `resolve` returns the addresses, in order and all.
pub resolve-all_bytes :
    (rs : List Address) (fuel : ℕ) (qname : CStr) (response post : List ℕ) (high low : ℕ)
    → ArePointers rs
    → get_elem? response 6 ≡ some high
    → get_elem? response 7 ≡ some low
    → high * 256 + low ≡ length rs
    → drop (12 + length qname + 2 + 4) response ≡ all_bytes rs post
    → resolve fuel qname response ≡ some (map printed rs)
unfolding resolve
resolve-all_bytes rs fuel qname response post high low h e₆ e₇ count e = rw e₆ (
    rw e₇ (rw count (answers_from-all_bytes rs fuel response post (12 + length qname + 2 + 4) h e)))
