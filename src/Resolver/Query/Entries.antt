-- ===== src/Resolver/Query/Entries.antt =====
-- The linked list of resolver.c: `resolve` and `free_answer_entries` on the memory that `malloc` gives.
pub mod Built
pub mod Links
use systems_programming.Base.{
  ◌>>=◌, ℕ, zero, suc, ◌+◌, ◌*◌, ◌==◌, ◌≡◌, refl, if◌then◌else◌, Option, none, some, List, [], ◌∷◌,
  ◌++◌, length, length-append, get_elem?, set, CStr, arith, ap, ◌∙◌, sym, Option-cases, inl, inr,
  map,
}
use systems_programming.Resolver.Query.{answer_at, answers_from, resolve}

-- A pointer `next`: not yet stored, NULL, or an address.
pub data Link : Type 0 where
  unset null : Link
  at : ℕ → Link

-- `dns_answer_entry`; a value that is `none` is not yet stored.
pub record Entry : Type 0 where
  pub value : Option CStr
  pub next : Link

-- The memory: the entry at each address that `malloc` has given, `none` once it is freed. A new entry
-- gets an address that was never used.
abbrev pub Heap : Type 0
Heap = List (Option Entry)

abbrev pub new_entry : Entry
new_entry = record { value = none; next = unset }

abbrev pub malloc : Heap → Heap
malloc heap = heap ++ (some new_entry ∷ [])

-- What stands at an address; `none` for a freed entry and for no entry.
unfoldable pub load : Heap → ℕ → Option Entry
load heap a = elim (get_elem? heap a) [ none ↦ none | some cell ↦ cell ]

unfoldable pub set_next : Heap → ℕ → Link → Option Heap
set_next heap a link = do
  entry ← load heap a
  some (set heap a (some (record entry { next = link })))

unfoldable pub set_value : Heap → ℕ → CStr → Option Heap
set_value heap a value = do
  entry ← load heap a
  some (set heap a (some (record entry { value = some value })))

unfoldable pub free : Heap → ℕ → Option Heap
free heap a = do entry ← load heap a; some (set heap a none)

-- The loop of `resolve`, with `current_ans` and `prev`, which is not set before the first round.
unfoldable pub entries_from :
    ℕ → ℕ → List ℕ → ℕ → Heap → ℕ → Option ℕ → Option (Heap × ℕ × Option ℕ)
entries_from zero fuel wire index heap current prev = some (heap, current, prev)
entries_from (suc total) fuel wire index heap current prev = do
  linked ← set_next (malloc heap) current (at (length heap))
  (value, next) ← answer_at fuel wire index
  stored ← set_value linked current value
  entries_from total fuel wire next stored (length heap) (some current)

-- Behind the loop: the entry that was not filled is cut off and freed.
unfoldable pub finish_list : ℕ → ℕ → Heap × ℕ × Option ℕ → Option (Heap × Link)
finish_list zero head (heap, current, prev) = some (heap, null)
finish_list (suc total) head (heap, current, prev) = do
  last ← prev
  ended ← set_next heap last null
  freed ← free ended current
  some (freed, at head)

-- `resolve`, with the list that it builds in memory.
unfoldable pub resolve_list : ℕ → CStr → List ℕ → Heap → Option (Heap × Link)
resolve_list fuel qname response heap = do
  high ← get_elem? response 6
  low ← get_elem? response 7
  built ←
      entries_from (high * 256 + low) fuel response (12 + length qname + 2 + 4) (malloc heap)
        (length heap) none
  finish_list (high * 256 + low) (length heap) built

-- How a loop over the list ends; `running` if the given rounds do not suffice.
pub data Walked (A : Type 0) : Type 0 where
  finished : A → Walked A
  fault running : Walked A

-- `free_answer_entries`
unfoldable pub free_answer_entries : ℕ → Heap → Link → Walked Heap
free_answer_entries fuel heap null = finished heap
free_answer_entries fuel heap unset = fault
free_answer_entries zero heap (at a) = running
free_answer_entries (suc fuel) heap (at a) = elim (load heap a) [
  | none ↦ fault
  | some entry ↦ elim entry.value [
    | none ↦ fault
    | some value ↦ free_answer_entries fuel (set heap a none) entry.next
  ]
]
