-- ===== src/CommandLine.antt =====
-- cmd/gssh/dest.go, and the options of forward and scp in cmd/gssh/commands.go: from the words of the
-- command line to a request.
pub mod Destinations
pub mod Remotes
pub mod Ports
pub mod Numerals
pub mod Requests
pub mod Plans
pub mod Results
pub mod Main
use agmux.Base.{
  ℕ, zero, suc, ◌+◌, ◌-◌, ◌*◌, ℤ, pos, negsuc, Option, none, some, Bool, true, false, not, ◌&&◌,
  ◌||◌, ◌==◌, ltb, leb, List, [], ◌∷◌, ◌++◌, if◌then◌else◌, Bytes, codes, length, contains,
}

-- strings.LastIndex of one byte: the text before it and behind it.
unfoldable pub split_last : ℕ → Bytes → Option (Bytes × Bytes)
split_last c [] = none
split_last c (x ∷ s) = elim (split_last c s) [
  | some (before, behind) ↦ some (x ∷ before, behind)
  | none ↦ if x == c then some ([], s) else none
]

-- strings.Index of one byte
unfoldable pub split_first : ℕ → Bytes → Option (Bytes × Bytes)
split_first c [] = none
split_first c (x ∷ s) =
    let further = split_first c s in
    if x == c
    then some ([], s)
    else elim further [ some (before, behind) ↦ some (x ∷ before, behind) | none ↦ none ]

pub data Destination : Type 0 where
  destination : Bytes → Bytes → Destination
  no_user empty_host : Destination

unfoldable pub with_host : Bytes → Bytes → Destination
with_host user [] = empty_host
with_host user (c ∷ host) = destination user (c ∷ host)

-- `current` is what user.Current returns.
unfoldable pub with_user : Option Bytes → Bytes → Bytes → Destination
unfolding with_host
with_user none [] host = no_user
with_user (some current) [] host = with_host current host
with_user current (c ∷ user) host = with_host (c ∷ user) host

unfoldable pub split_destination : Option Bytes → Bytes → Option (Bytes × Bytes) → Destination
split_destination current dest (some (user, host)) = with_user current user host
split_destination current dest none = with_user current [] dest

-- parseDestination
unfoldable pub parse_destination : Option Bytes → Bytes → Destination
unfolding split_destination with_user
parse_destination current dest = split_destination current dest (split_last b'@' dest)

pub record Remote : Type 0 where
  pub session : Bytes
  pub path : Bytes

unfoldable pub starts_with_backslash : Bytes → Bool
starts_with_backslash [] = false
starts_with_backslash (c ∷ s) = c == b'\\'

unfoldable pub path_or_home : Bytes → Bytes
path_or_home [] = codes "."
path_or_home (c ∷ path) = c ∷ path

unfoldable pub remote_parts : Bytes → Bytes → Option Remote
unfolding starts_with_backslash path_or_home
remote_parts [] path = none
remote_parts (c ∷ prefix) path =
    if contains (c ∷ prefix) b'/' || contains (c ∷ prefix) b'\\'
    then none
    else if length prefix == 0 && starts_with_backslash path
    then none
    else some (record { session = c ∷ prefix; path = path_or_home path })

unfoldable pub remote_of : Option (Bytes × Bytes) → Option Remote
unfolding remote_parts
remote_of none = none
remote_of (some (prefix, path)) = remote_parts prefix path

-- splitRemoteSpec
unfoldable pub split_remote_spec : Bytes → Option Remote
unfolding remote_of
split_remote_spec s = remote_of (split_first b':' s)

-- The digits of strconv.Atoi, most significant first, behind the value `n`.
unfoldable pub digits : ℕ → Bytes → Option ℕ
digits n [] = some n
digits n (c ∷ s) =
    let rest = digits (10 * n + (c - b'0')) s in if leb b'0' c && leb c b'9' then rest else none

abbrev pub max_int : ℕ
max_int = 9223372036854775807

unfoldable pub in_range : Bool → Option ℕ → Option ℤ
in_range negative none = none
in_range false (some n) = if leb n max_int then some (pos n) else none
in_range true (some zero) = some (pos 0)
in_range true (some (suc n)) = if leb n max_int then some (negsuc n) else none

unfoldable pub unsigned : Bytes → Option ℕ
unfolding digits
unsigned [] = none
unsigned (c ∷ s) = digits 0 (c ∷ s)

-- strconv.Atoi
unfoldable pub atoi : Bytes → Option ℤ
unfolding in_range unsigned
atoi [] = none
atoi (c ∷ s) =
    if c == b'-'
    then in_range true (unsigned s)
    else if c == b'+'
    then in_range false (unsigned s)
    else in_range false (unsigned (c ∷ s))

unfoldable pub port : Option ℤ → Option ℕ
port none = none
port (some (negsuc n)) = none
port (some (pos n)) = if leb 1 n && leb n 65535 then some n else none

abbrev pub both {ℓ} : {A : Type ℓ} → Option A → Option A → Option (A × A)
both (some a) (some b) = some (a, b)
both none b = none
both (some a) none = none

unfoldable pub ports_of : Option (Bytes × Bytes) → Option (ℕ × ℕ)
unfolding port atoi
ports_of none = none
ports_of (some (a, b)) = if contains b b':' then none else both (port (atoi a)) (port (atoi b))

-- parseForwardSpec: strings.Split gives two parts exactly if there is one colon.
unfoldable pub parse_forward_spec : Bytes → Option (ℕ × ℕ)
unfolding ports_of
parse_forward_spec spec = ports_of (split_first b':' spec)
