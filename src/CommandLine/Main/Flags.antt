-- ===== src/CommandLine/Main/Flags.antt =====
-- Where the global option -S may stand.
use agmux.Base.{◌≡◌, refl, false, List, [], ◌∷◌, ◌++◌, Bytes, codes, bytes_eq, All, All-append}
use agmux.CommandLine.Main.{take_socket, main}

-- A word that is not the option.
abbrev pub IsPlainWord : Bytes → Type 0
IsPlainWord arg = bytes_eq arg (codes "-S") ≡ false

take_plain :
    (path : Bytes) (args : List Bytes) → All IsPlainWord args → take_socket path args ≡ (path, args)
unfolding take_socket
take_plain path [] all = refl
take_plain path (arg ∷ []) all = refl
take_plain path (arg ∷ next ∷ args) (plain, all) =
    rw (plain, take_plain path (next ∷ args) all) refl

take_option :
    (path socket : Bytes) (words args : List Bytes)
    → All IsPlainWord words
    → All IsPlainWord args
    → take_socket path (words ++ codes "-S" ∷ socket ∷ args) ≡ (socket, words ++ args)
unfolding take_socket
take_option path socket [] args all more = rw (take_plain socket args more) refl
take_option path socket (word ∷ []) args (plain, all) more =
    rw (plain, take_plain socket args more) refl
take_option path socket (word ∷ next ∷ words) args (plain, all) more =
    rw (plain, take_option path socket (next ∷ words) args all more) refl

-- A command line with one -S does what it does without it, wherever the option stands among the words,
-- on the socket that the option names.
pub main-take_socket :
    (path socket : Bytes) (words args : List Bytes)
    → All IsPlainWord words
    → All IsPlainWord args
    → main path (words ++ codes "-S" ∷ socket ∷ args)
      ≡ record (main path (words ++ args)) { socket_path = socket }
unfolding main
main-take_socket path socket words args all more =
    rw
      (
        take_option path socket words args all more,
        take_plain path (words ++ args) (All-append IsPlainWord words args all more),
      )
      refl
