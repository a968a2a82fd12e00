-- ===== src/Tests/Names.antt =====
-- The name `a.bc` on the wire, in a query and in a response.
use systems_programming.Base.{
  ℕ, ◌≡◌, refl, some, List, [], ◌∷◌, ◌++◌, map, CStr, codes, arith, replicate,
}
use systems_programming.Proxy.Parse.{elem}
use systems_programming.Resolver.{text, name_ascii_to_wire, name_ascii_from_wire, canonical}
use systems_programming.Resolver.Names.{AreLabels, name_ascii_from_wire-to_wire}
use systems_programming.Resolver.Query.{resolve}
use systems_programming.Resolver.Query.Answers.{Address, all_bytes, printed, resolve-all_bytes}

abbrev labels : List CStr
labels = codes "a" ∷ codes "bc" ∷ []

pub are_labels : AreLabels (b'.' ∷ []) labels
unfolding elem
are_labels = (
  ((refl, tt), omega arith, (refl, tt)),
  (((refl, (refl, tt)), omega arith, (refl, (refl, tt))), tt),
)

name_ascii_from_wire-to_wire_example :
    name_ascii_from_wire 5 ((9 ∷ []) ++ (name_ascii_to_wire [] (codes "a.bc") ++ (7 ∷ []))) 1
    ≡ canonical (text (codes "a.bc"))
name_ascii_from_wire-to_wire_example =
    name_ascii_from_wire-to_wire 5 [] (codes "a") (codes "bc" ∷ []) (9 ∷ []) (7 ∷ []) are_labels
      (omega arith) (omega arith)

abbrev pub answer : Address
answer = record { pointer = (192, 12); class_and_time = (0, 1, 0, 0, 0, 60); bytes = (10, 0, 0, 1) }

abbrev pub response : List ℕ
response = replicate 7 0 ++ (1 ∷ (replicate 14 0 ++ all_bytes (answer ∷ []) []))

resolve-all_bytes_example : resolve 3 (codes "a.bc") response ≡ some (map printed (answer ∷ []))
resolve-all_bytes_example =
    resolve-all_bytes (answer ∷ []) 3 (codes "a.bc") response [] 0 1 (refl, tt) refl refl refl refl
