-- ===== src/Tests/Shell.antt =====
-- Quoting at concrete texts.
use agmux.Base.{◌≡◌, refl, [], ◌∷◌, some, codes, contains}
use agmux.Shell.{quote, join_command_args}
use agmux.Shell.Words.{words}
use agmux.Shell.Words.Quoting.{words-join_command_args}

quote_plain : quote (codes "ls") ≡ codes "ls"
unfolding quote contains
quote_plain = refl

quote_mixed : quote (codes "it's") ≡ codes "'it'\"'\"'s'"
unfolding quote contains
quote_mixed = refl

words_mixed :
    words (codes "echo 'a b'\"'\"c  d") ≡ some (codes "echo" ∷ codes "a b'c" ∷ codes "d" ∷ [])
unfolding words
words_mixed = refl

words-join_command_args_example :
    (words (join_command_args (codes "echo" ∷ codes "a b" ∷ codes "$x" ∷ []))
      ≡ some (codes "echo" ∷ codes "a b" ∷ codes "$x" ∷ []))
    × (join_command_args (codes "echo" ∷ []) ≡ codes "echo")
words-join_command_args_example =
    words-join_command_args (codes "echo") (codes "a b") (codes "$x" ∷ [])
