-- ===== src/Forward/Restarts.antt =====
-- Forwards after a reconnect.
use agmux.Base.{
  ℕ, String, ◌≡◌, ◌&&◌, ◌||◌, Option, none, some, Bool, true, false, if◌then◌else◌, str_eq,
}
use agmux.Forward.{Forwarder, Net, restart}
use agmux.Forward.Service.{Service}

-- Whether a forward of a type has a listener after a restart, and whether it accepts: a local one
-- always does, and waits for a listener, a remote one needs a client and a listener.
abbrev pub listens_again : String → Option ℕ → Bool → Bool
listens_again t none listens = str_eq t "local" && listens
listens_again t (some c) listens = (str_eq t "local" || str_eq t "remote") && listens

abbrev pub accepts_again : String → Option ℕ → Bool → Bool
accepts_again t client listens = str_eq t "local" || listens_again t client listens

abbrev pub has_listener : Forwarder → Bool
has_listener f = elim f.listener [ none ↦ false | some l ↦ true ]

-- A forward of the session has the new client and is open again with its own ports. Any other forward
-- is as it was.
abbrev pub Restarted : Bool → Option ℕ → Bool → Forwarder → Forwarder → Type 0
Restarted true client listens f g =
    (g.client ≡ client)
    × (g.closed ≡ false)
    × (g.id ≡ f.id)
    × (g.session ≡ f.session)
    × (g.forward_type ≡ f.forward_type)
    × (g.local_port ≡ f.local_port)
    × (g.remote_port ≡ f.remote_port)
    × (g.bind_addr ≡ f.bind_addr)
    × (has_listener g ≡ listens_again f.forward_type client listens)
    × (g.accepting ≡ accepts_again f.forward_type client listens)
Restarted false client listens f g = g ≡ f

-- One entry of the loop of RestartAll.
one : String → Option ℕ → (String → Bool) → String → Forwarder → Net → Net × Forwarder
one session client listens id f n =
    if str_eq f.session session then restart client (listens id) f n else (n, f)
