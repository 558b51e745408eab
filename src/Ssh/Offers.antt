-- ===== src/Ssh/Offers.antt =====
-- Which authentication methods a connection offers.
use agmux.Base.{ℕ, String, ◌≡◌, ◌≢◌, ◌⊎◌, true, List, [], ◌∷◌, ◌++◌, All}
use agmux.Ssh.{AuthConfig, signer, AuthMethod, public_key, agent_keys, System, password_methods}

-- Key material that needs no option: the agent, or a default key that is usable as it is.
abbrev pub IsDefault : System → AuthMethod → Type 0
IsDefault s a =
    ((s.agent_answers ≡ true) × (a ≡ agent_keys))
    ⊎ ((name : String) × (k : ℕ) × (s.default_file name ≡ signer k) × (a ≡ public_key k))

-- The password first, if there is one; then the given key alone, or the default material.
abbrev pub Offers : System → AuthConfig → List AuthMethod → Type 0
Offers s a l =
    (l ≢ [])
    × (keys : List AuthMethod) × (l ≡ password_methods a.password ++ keys)
    × (((a.key_path ≢ "")
          × (k : ℕ) × (s.key_file a.key_path ≡ signer k)
          × (keys ≡ public_key k ∷ []))
        ⊎ ((a.key_path ≡ "") × All (IsDefault s) keys))
