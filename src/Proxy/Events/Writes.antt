-- ===== src/Proxy/Events/Writes.antt =====
-- The loop over `write` of proxylab-handout/proxy.c: what it sends, and when it ends.
use systems_programming.Base.{
  ℕ, ◌+◌, ◌-◌, ◌≤◌, ◌≡◌, ◌==◌, List, [], ◌∷◌, ◌++◌, take, drop, take-drop_append, arith, Bool-cases,
  inl, inr, ap, ◌∙◌,
}
use systems_programming.Proxy.Events.{
  WriteResult, wrote, write_again, write_error, complete, suspended, exited, Writing, write_buffer,
}

-- `write` never takes more bytes than it is given.
abbrev pub Fits : List WriteResult → ℕ → Type 0
Fits [] left = Unit
Fits (wrote k ∷ rs) left = (k ≤ left) × Fits rs (left - k)
Fits (r ∷ rs) left = Unit

-- What a run of the write loop has done.
pub record Wrote (buf : List ℕ) (len n : ℕ) (w : Writing) : Type 0 where
  pub low : n ≤ w.count
  pub high : w.count ≤ len
  pub bytes : w.out ≡ take (w.count - n) (drop n buf)
  pub done : w.status ≡ complete → w.count ≡ len

pub write_buffer-Wrote :
    (rs : List WriteResult) (buf : List ℕ) (len n : ℕ)
    → n ≤ len
    → Fits rs (len - n)
    → Wrote buf len n (write_buffer rs buf len n)
unfolding write_buffer
write_buffer-Wrote [] buf len n le fits = elim (Bool-cases (n == len)) [
  | inl e ↦
      rw e (record { low = omega arith; high = le; bytes = none_out; done = λ _. ground arith })
  | inr e ↦ rw e (record { low = omega arith; high = le; bytes = none_out; done = λ q. cc })
]
  where
    none_out : [] ≡ take (n - n) (drop n buf)
    none_out = let z : n - n ≡ 0 = omega arith in rw z
write_buffer-Wrote (r ∷ rs) buf len n le fits = elim (Bool-cases (n == len)) [
  | inl e ↦
      rw e (record { low = omega arith; high = le; bytes = none_out; done = λ _. ground arith })
  | inr e ↦ rw e (
      go r fits (λ k h q. write_buffer-Wrote rs buf len (n + k) (omega arith) (rw (rest_left k) q)))
]
  where
    none_out : [] ≡ take (n - n) (drop n buf)
    none_out = let z : n - n ≡ 0 = omega arith in rw z

    rest_left : (k : ℕ) → len - (n + k) ≡ len - n - k
    rest_left k = omega arith

    pieces :
        (k c : ℕ)
        → n + k ≤ c
        → take k (drop n buf) ++ take (c - (n + k)) (drop (n + k) buf) ≡ take (c - n) (drop n buf)
    pieces k c h =
        take-drop_append n k (c - (n + k)) buf ∙ ap (λ t. take t (drop n buf)) (omega arith)

    go :
        (r : WriteResult)
        → Fits (r ∷ rs) (len - n)
        → ((k : ℕ)
            → k ≤ len - n
            → Fits rs (len - n - k)
            → Wrote buf len (n + k) (write_buffer rs buf len (n + k)))
        → Wrote buf len n (elim r [
          | write_again ↦ record { count = n; out = []; status = suspended }
          | write_error ↦ record { count = n; out = []; status = exited }
          | wrote k ↦
              let rest : Writing = write_buffer rs buf len (n + k) in
              record {
                count = rest.count;
                out = take k (drop n buf) ++ rest.out;
                status = rest.status;
              }
        ])
    go write_again f ih = record { low = omega arith; high = le; bytes = none_out; done = λ q. cc }
    go write_error f ih = record { low = omega arith; high = le; bytes = none_out; done = λ q. cc }
    go (wrote k) f ih =
        let w = ih k f.0 f.1 in
        record {
          low = omega (arith, w.low);
          high = w.high;
          bytes = rw w.bytes (pieces k (write_buffer rs buf len (n + k)).count w.low);
          done = w.done;
        }

-- The calls of `write` take all the bytes that are left.
abbrev pub Takes : List WriteResult → ℕ → Type 0
Takes [] left = left ≡ 0
Takes (wrote k ∷ rs) left = (k ≤ left) × Takes rs (left - k)
Takes (r ∷ rs) left = left ≡ 0

pub Takes-Fits : (rs : List WriteResult) (left : ℕ) → Takes rs left → Fits rs left
Takes-Fits [] left h = _
Takes-Fits (wrote k ∷ rs) left h = (h.0, Takes-Fits rs (left - k) h.1)
Takes-Fits (write_again ∷ rs) left h = _
Takes-Fits (write_error ∷ rs) left h = _

pub write_buffer-finishes :
    (rs : List WriteResult) (buf : List ℕ) (len n : ℕ)
    → n ≤ len
    → Takes rs (len - n)
    → (write_buffer rs buf len n).status ≡ complete
unfolding write_buffer
write_buffer-finishes [] buf len n le h = let e : n ≡ len = omega arith in ground arith
write_buffer-finishes (write_again ∷ rs) buf len n le h =
    let e : n ≡ len = omega arith in ground arith
write_buffer-finishes (write_error ∷ rs) buf len n le h =
    let e : n ≡ len = omega arith in ground arith
write_buffer-finishes (wrote k ∷ rs) buf len n le h =
    let e : len - (n + k) ≡ len - n - k = omega arith in
    let rest = write_buffer-finishes rs buf len (n + k) (omega (arith, h.0)) (rw e h.1) in
    ground arith
