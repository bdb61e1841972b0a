-- ===== src/Tests/Users.antt =====
-- Runs of the library of the applications (user/user_lib.c) with the format "%d:%c" of Tests/Prints.
use mypkecode.Base.{ℕ, ◌≡◌, ◌-◌, ◌^◌, inl, some, List, ◌∷◌, [], arith}
use mypkecode.User.{User, Ecall, printu}
use mypkecode.User.Print.{lowest_word, print_call, with_text, printu-call}
use mypkecode.Tests.Prints.{colon_format, two_words, colon_text, colon_render}

-- A kernel that keeps the second and the third register and answers with -1 in 64 bits.
abbrev keeper : Ecall (List ℕ)
keeper call u = some (2 ^ 64 - 1, record u { kernel = call.a1 ∷ call.a2 ∷ u.kernel })

abbrev before : User (List ℕ)
before = record { mem = λ a. 7; kernel = [] }

printu-call_example :
    printu keeper 0x7FFF_E000 colon_format two_words before
    ≡ lowest_word (
        keeper
          (print_call 0x7FFF_E000 5)
          (record before { mem = with_text (λ a. 7) 0x7FFF_E000 colon_text }))
printu-call_example =
    printu-call keeper 0x7FFF_E000 colon_format two_words colon_text before colon_render
      (omega arith) (inl (omega arith))
