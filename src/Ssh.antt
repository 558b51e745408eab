-- ===== src/Ssh.antt =====
-- internal/ssh/client.go: the authentication methods, the host key policy and the liveness probe. The
-- handshake is golang.org/x/crypto/ssh; key files and the agent are what the system holds.
pub mod HostKeys
pub mod Offers
pub mod Liveness
use agmux.Base.{
  ℕ, String, Option, none, some, Bool, true, false, not, ◌||◌, str_eq, List, [], ◌∷◌, ◌++◌,
  if◌then◌else◌, Bytes,
}

pub record AuthConfig : Type 0 where
  pub password : String
  pub key_path : String

-- What reading and parsing a key file comes to; a signer is a number.
pub data KeyFile : Type 0 where
  unreadable passphrase_missing unparsable : KeyFile
  signer : ℕ → KeyFile

-- An ssh.AuthMethod; the challenge handler answers each question with the password.
pub data AuthMethod : Type 0 where
  password_method keyboard_interactive : String → AuthMethod
  public_key : ℕ → AuthMethod
  agent_keys : AuthMethod

-- `key_file` is the file of an expanded path, `default_file` one of ~/.ssh, and `agent_answers` says
-- whether SSH_AUTH_SOCK is set and can be dialled.
pub record System : Type 0 where
  pub key_file : String → KeyFile
  pub has_home : Bool
  pub default_file : String → KeyFile
  pub agent_answers : Bool

unfoldable pub password_methods : String → List AuthMethod
password_methods password =
    if str_eq password "" then [] else password_method password ∷ keyboard_interactive password ∷ []

pub data AuthMethods : Type 0 where
  methods : List AuthMethod → AuthMethods
  key_error : KeyFile → AuthMethods
  no_method : AuthMethods

-- authFromKeyPath
unfoldable pub auth_from_key_path : List AuthMethod → KeyFile → AuthMethods
auth_from_key_path first (signer k) = methods (first ++ public_key k ∷ [])
auth_from_key_path first f = key_error f

unfoldable pub usable : KeyFile → List AuthMethod → List AuthMethod
usable (signer k) rest = public_key k ∷ rest
usable f rest = rest

abbrev pub default_names : List String
default_names = "id_ed25519" ∷ "id_ecdsa" ∷ "id_rsa" ∷ "id_dsa" ∷ []

unfoldable pub usable_keys : (String → KeyFile) → List String → List AuthMethod
unfolding usable
usable_keys file [] = []
usable_keys file (name ∷ names) = usable (file name) (usable_keys file names)

-- defaultKeyAuthMethods
unfoldable pub default_key_auth_methods : System → List AuthMethod
unfolding usable_keys
default_key_auth_methods s = if s.has_home then usable_keys s.default_file default_names else []

unfoldable pub agent_methods : System → List AuthMethod
agent_methods s = if s.agent_answers then agent_keys ∷ [] else []

unfoldable pub some_method : List AuthMethod → AuthMethods
some_method [] = no_method
some_method (a ∷ l) = methods (a ∷ l)

-- Connect up to the host key callback
unfoldable pub auth_methods : System → AuthConfig → AuthMethods
unfolding auth_from_key_path some_method
auth_methods s a =
    let first = password_methods a.password in
    if not (str_eq a.key_path "")
    then auth_from_key_path first (s.key_file a.key_path)
    else some_method (first ++ (agent_methods s ++ default_key_auth_methods s))

-- What the known hosts say of a key: golang.org/x/crypto/ssh/knownhosts.
pub data Verdict : Type 0 where
  known unknown mismatch other_error : Verdict

-- `line` is the line that is appended for a host and a key.
pub record KnownHosts : Type 0 where
  pub verdict : List Bytes → Bytes → Bytes → Verdict
  pub line : Bytes → Bytes → Bytes

unfoldable pub on_verdict :
    KnownHosts → Bool → Bool → List Bytes → Bytes → Bytes → Verdict → List Bytes × Bool
on_verdict k trusts writes file host key known = (file, true)
on_verdict k trusts writes file host key unknown =
    if not trusts
    then (file, false)
    else if writes
    then (file ++ k.line host key ∷ [], true)
    else (file, false)
on_verdict k trusts writes file host key mismatch = (file, false)
on_verdict k trusts writes file host key other_error = (file, false)

-- The callback of getHostKeyCallback: the file after it, and whether the key is accepted. `trusts` is
-- the environment variable, `writes` whether the file can be appended to.
unfoldable pub check_host_key :
    KnownHosts → Bool → Bool → List Bytes → Bytes → Bytes → List Bytes × Bool
unfolding on_verdict
check_host_key k trusts writes file host key =
    on_verdict k trusts writes file host key (k.verdict file host key)

-- The connection, and whether a probe is under way.
pub record Client : Type 0 where
  pub go_client : Option ℕ
  pub probing : Bool

-- Close
unfoldable pub close : Client → Client
close c = record { go_client = none; probing = false }

-- What the keepalive request comes to: an answer or an error in time, or nothing for 5 s.
pub data KeepAlive : Type 0 where
  answered failed silent : KeepAlive

unfoldable pub probe : KeepAlive → Client → Client × Bool
unfolding close
probe answered c = (record c { probing = false }, true)
probe failed c = (record c { probing = false }, false)
probe silent c = (close c, false)

unfoldable pub probe_open : KeepAlive → Option ℕ → Client → Client × Bool
unfolding probe
probe_open a none c = (c, false)
probe_open a (some g) c = if c.probing then (c, false) else probe a (record c { probing = true })

-- IsAlive
unfoldable pub is_alive : KeepAlive → Client → Client × Bool
unfolding probe_open
is_alive a c = probe_open a c.go_client c
