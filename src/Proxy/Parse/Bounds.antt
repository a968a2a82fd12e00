-- ===== src/Proxy/Parse/Bounds.antt =====
-- What `parse` of proxylab-handout/proxy.c puts together fits into its buffer.
use systems_programming.Base.{
  ◌<◌, ◌≡◌, refl, ◌⊎◌, inl, inr, ltb, Option, length, arith, codes, Bool-cases, subst, CStr, ◌+◌,
}
use systems_programming.Proxy.Parse.{
  Parsed, ok, fault, ◌>>=◌, deref, strtok, strchr, crlf, headers_from, split_host, assemble, Target,
  parse, parse_copy, finish_parse, max_object_size,
}

-- A parsed request fits into its buffer.
finish_parse-small :
    (authority : CStr × Option CStr) (request : CStr) (t : Target)
    → finish_parse authority request ≡ ok t
    → length t.request < max_object_size
unfolding finish_parse
finish_parse-small authority request t e =
    elim (Bool-cases (ltb (length request) max_object_size)) [
      | inl q ↦
          let small : length request < max_object_size = ground arith in
          let same : record { host = authority.0; port = authority.1; request = request } ≡ t =
            ground arith in
          subst (λ (u : Target). length u.request < max_object_size) same small
      | inr q ↦ absurd (ground arith)
    ]

through :
    {A B : Type 0} {P : Type 0} (x : Parsed A) (f : A → Parsed B) (b : B)
    → ((a : A) → f a ≡ ok b → P)
    → (x >>= f) ≡ ok b
    → P
through (ok a) f b h e = h a e
through fault f b h e = cc

parse_copy-small :
    (buf : CStr) (t : Target) → parse_copy buf ≡ ok t → length t.request < max_object_size
unfolding parse_copy
parse_copy-small buf t = through (deref (strtok (codes " ") buf)) _ t (λ (req_type, s₁).
    through (deref (strtok (codes "//") s₁)) _ t (λ (http, s₂).
      through (deref (strtok (codes "/") s₂)) _ t (λ (authority, s₃).
        through (deref (strtok crlf s₃)) _ t (λ (line, s₄).
          through (deref (strchr b' ' line)) _ t (λ (path, version).
            through (headers_from (length s₄ + 1) s₄) _ t (λ headers.
              finish_parse-small (split_host authority)
                (assemble req_type (split_host authority).0 path headers) t))))))

pub parse-small : (buf : CStr) (t : Target) → parse buf ≡ ok t → length t.request < max_object_size
unfolding parse
parse-small buf t e = elim (Bool-cases (ltb (length buf) max_object_size)) [
  | inl q ↦ parse_copy-small buf t (ground arith)
  | inr q ↦ absurd (ground arith)
]

pub Parsed-cases : {A : Type 0} (x : Parsed A) → (x ≡ fault) ⊎ ((a : A) × (x ≡ ok a))
Parsed-cases (ok a) = inr (a, refl)
Parsed-cases fault = inl refl
