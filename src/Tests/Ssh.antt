-- ===== src/Tests/Ssh.antt =====
-- Connections at a concrete machine.
use agmux.Base.{◌≡◌, refl, List, [], ◌∷◌, ◌++◌, true, codes, str_eq, if◌then◌else◌, ◌==◌, length}
use agmux.Ssh.{
  System, AuthConfig, AuthMethod, signer, unreadable, passphrase_missing, public_key, agent_keys,
  password_method, keyboard_interactive, KnownHosts, known, unknown, check_host_key, on_verdict,
}
use agmux.Ssh.Offers.{Offers}

abbrev laptop : System
laptop = record {
  key_file = λ path. unreadable;
  has_home = true;
  default_file = λ name. if str_eq name "id_rsa" then signer 4 else passphrase_missing;
  agent_answers = true;
}

abbrev with_password : AuthConfig
with_password = record { password = "pw"; key_path = "" }

abbrev offered : List AuthMethod
offered = password_method "pw" ∷ keyboard_interactive "pw" ∷ agent_keys ∷ public_key 4 ∷ []

-- A file of one line per host, which any line makes known.
abbrev hosts : KnownHosts
hosts = record {
  verdict = λ file host key. if length file == 0 then unknown else known;
  line = λ host key. host ++ 32 ∷ key;
}

accepts_new : (check_host_key hosts true true [] (codes "web") (codes "k1")).1 ≡ true
unfolding check_host_key on_verdict
accepts_new = refl
