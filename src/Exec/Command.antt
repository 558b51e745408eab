-- ===== src/Exec/Command.antt =====
-- The started line, as the shell reads it.
use agmux.Base.{
  ℕ, ◌≡◌, refl, ap, ◌∙◌, Bool-cases, inl, inr, List, [], ◌∷◌, ◌++◌, Bytes, codes, Bool, true, false,
  some, none, if◌then◌else◌, contains,
}
use agmux.Shell.{quote, all_safe}
use agmux.Shell.Words.{words, read, gap, cons_word, blank}
use agmux.Shell.Words.Quoting.{read-safe_word, read-quote_word, read-quote_end}
use agmux.Exec.{SudoOptions, full_command, sudo_prefix, sudo_command, launch, password_input}

-- The arguments of `bash -c` for a command.
abbrev pub bash_words : Bytes → List Bytes
bash_words command = codes "/bin/bash" ∷ codes "-c" ∷ command ∷ []

-- sudo and the options that stand for the user and the login shell.
abbrev pub sudo_words : Bool → Bytes → List Bytes
sudo_words true user = codes "sudo" ∷ codes "-i" ∷ []
sudo_words false [] = codes "sudo" ∷ []
sudo_words false (c ∷ user) = codes "sudo" ∷ codes "-u" ∷ (c ∷ user) ∷ []

abbrev pub started_words : Bytes → SudoOptions → List Bytes
started_words command o =
    if o.enabled
    then sudo_words o.login o.user ++ codes "-S" ∷ codes "-p" ∷ [] ∷ bash_words command
    else bash_words command

read_literal :
    (c : ℕ) (s rest : Bytes) {ws : List Bytes}
    → all_safe (c ∷ s) ≡ true
    → read gap [] rest ≡ some ws
    → read gap [] ((c ∷ s) ++ blank ∷ rest) ≡ some ((c ∷ s) ∷ ws)
read_literal c s rest h e = read-safe_word c s [] rest h ∙ ap (cons_word (c ∷ s)) e

read_quoted :
    (s rest : Bytes) {ws : List Bytes}
    → read gap [] rest ≡ some ws
    → read gap [] (quote s ++ blank ∷ rest) ≡ some (s ∷ ws)
read_quoted s rest e = read-quote_word s [] rest ∙ ap (cons_word s) e

read-full_command :
    (command : Bytes) → read gap [] (full_command command) ≡ some (bash_words command)
unfolding full_command all_safe contains
read-full_command command =
    read_literal b'/' (codes "bin/bash") (codes "-c " ++ quote command) refl
      (read_literal b'-' (codes "c") (quote command) refl (read-quote_end command []))

-- `''` is read as an empty word.
read_empty :
    (rest : Bytes) {ws : List Bytes}
    → read gap [] rest ≡ some ws
    → read gap [] (codes "'' " ++ rest) ≡ some ([] ∷ ws)
unfolding quote
read_empty rest e = read_quoted [] rest e

read_tail :
    (command : Bytes)
    → read gap [] (codes "-S -p '' " ++ full_command command)
      ≡ some (codes "-S" ∷ codes "-p" ∷ [] ∷ bash_words command)
unfolding all_safe contains
read_tail command = read_literal b'-' (codes "S") _ refl (
    read_literal b'-' (codes "p") _ refl
      (read_empty (full_command command) (read-full_command command)))

read-sudo_command :
    (login : Bool) (user rest : Bytes) {ws : List Bytes}
    → read gap [] rest ≡ some ws
    → read gap [] (sudo_prefix login user ++ blank ∷ rest) ≡ some (sudo_words login user ++ ws)
unfolding sudo_prefix all_safe contains
read-sudo_command true user rest e =
    read_literal b's' (codes "udo") _ refl (read_literal b'-' (codes "i") rest refl e)
read-sudo_command false [] rest e = read_literal b's' (codes "udo") rest refl e
read-sudo_command false (c ∷ user) rest e =
    read_literal b's' (codes "udo") _ refl
      (read_literal b'-' (codes "u") _ refl (read_quoted (c ∷ user) rest e))

read-line :
    (command : Bytes) (o : SudoOptions)
    → read gap [] (sudo_command (full_command command) o)
      ≡ some (sudo_words o.login o.user ++ codes "-S" ∷ codes "-p" ∷ [] ∷ bash_words command)
unfolding sudo_command
read-line command o = read-sudo_command o.login o.user _ (read_tail command)

-- Whatever the command, the user name and the password are, the started line is read by a POSIX
-- shell as `/bin/bash -c <command>`, and under sudo as sudo with the user or login option, `-S`,
-- `-p ''` and those three words; the line does not change with the password, which under sudo is
-- written to stdin with a newline, if it is not empty.
pub words-launch :
    (command : Bytes) (o : SudoOptions)
    → (words (launch command o).line ≡ some (started_words command o))
      × ((password : Bytes)
          → (launch command (record o { password = password })).line ≡ (launch command o).line)
      × ((launch command o).stdin ≡ (if o.enabled then some (password_input o.password) else none))
unfolding words launch sudo_command
words-launch command o = elim (Bool-cases o.enabled) [
  | inl e ↦ rw e (read-line command o, λ password. refl, refl)
  | inr e ↦ rw e (read-full_command command, λ password. refl, refl)
]
