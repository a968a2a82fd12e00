-- ===== src/Tests/Texts.antt =====
-- The tests of hw4/strings/strings.c, and a text with a first word behind two spaces.
use systems_programming.Base.{◌≡◌, refl, true, none, some, [], ◌∷◌, codes, arith, str_eq}
use systems_programming.Proxy.Parse.{elem, skip, cut, strtok}
use systems_programming.Proxy.Parse.Headers.{IsToken}
use systems_programming.Strings.{
  stored, tested, main, test, string_at, memcpy, strcpy, strcmp, hello_world, is_hello_world,
  fill_hello_world, copy_string, copy_array, advance, terminate, get_substring, first_token,
  get_first_word, memcmp,
}
use systems_programming.Strings.Copies.{holding}
use systems_programming.Strings.Words.{text_answers}

first_test : main 2 1 ≡ tested (some true)
unfolding main test is_hello_world strcmp
first_test = refl

second_test : main 2 2 ≡ tested (some true)
unfolding main test fill_hello_world strcpy memcpy string_at strcmp
second_test = refl

third_test : main 2 3 ≡ tested (some true)
unfolding main test copy_string strcpy memcpy string_at strcmp
third_test = refl

fourth_test : main 2 4 ≡ tested (some true)
unfolding main test copy_array memcpy memcmp
fourth_test = refl

fifth_test : main 2 5 ≡ tested (some true)
unfolding main test get_substring advance terminate memcpy strcmp
fifth_test = refl

sixth_test : main 2 6 ≡ tested (some true)
unfolding main test get_first_word copy_string strcpy memcpy string_at first_token strtok skip cut
    elem str_eq
sixth_test = refl

ab-IsToken : IsToken (codes " ") (codes "ab")
unfolding elem
ab-IsToken = (refl, (refl, tt))

text_answers_example :
    (is_hello_world (holding (codes "  ab c") (none ∷ []))
      ≡ some (str_eq (codes "  ab c") hello_world))
    × (copy_string (holding (codes "  ab c") (none ∷ [])) ≡ some (stored (codes "  ab c")))
    × (get_substring (holding (codes "  ab c") (none ∷ [])) 2 2 ≡ some (stored (codes "ab")))
    × (get_first_word (holding (codes "  ab c") (none ∷ [])) ≡ some (some (codes "ab")))
text_answers_example =
    text_answers 2 (codes "ab") (some (codes "c")) (none ∷ []) 2 2
      (omega arith, (omega arith, (omega arith, (omega arith, (omega arith, (omega arith, tt))))))
      ab-IsToken (omega arith) (omega arith)
