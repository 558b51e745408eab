-- ===== src/Ssh/Liveness.antt =====
-- The liveness probe.
use agmux.Base.{
  ℕ, ◌≡◌, ◌≢◌, ◌↔◌, refl, sym, Option, none, some, Bool, true, false, if◌then◌else◌, arith,
}
use agmux.Ssh.{Client, KeepAlive, answered, failed, silent, probe, probe_open, is_alive, close}

abbrev is_silent : KeepAlive → Bool
is_silent silent = true
is_silent a = false

abbrev Probed : KeepAlive → Option ℕ → Client × Bool → Type 0
Probed a o r =
    ((r.1 ≡ true) ↔ ((a ≡ answered) × (o ≢ none)))
    × (r.0 ≡ record { go_client = if is_silent a then none else o; probing = false })

idle-Probed :
    (a : KeepAlive) (o : Option ℕ)
    → Probed a o (is_alive a (record { go_client = o; probing = false }))
unfolding is_alive probe_open probe close
idle-Probed answered none = ((λ h. cc h, λ (e, full). absurd (full refl)), refl)
idle-Probed failed none = ((λ h. cc h, λ (e, full). absurd (full refl)), refl)
idle-Probed silent none = ((λ h. cc h, λ (e, full). absurd (full refl)), refl)
idle-Probed answered (some g) = ((λ h. (refl, λ e. cc e), λ k. refl), refl)
idle-Probed failed (some g) = ((λ h. cc h, λ (e, full). cc e), refl)
idle-Probed silent (some g) = ((λ h. cc h, λ (e, full). cc e), refl)

-- With no probe under way, a client is alive exactly if it has a connection that answers the
-- keepalive without an error; the connection is given up only if there is no answer in time, and no
-- probe is under way afterwards.
is_alive-probing :
    (a : KeepAlive) (c : Client)
    → c.probing ≡ false
    → (((is_alive a c).1 ≡ true) ↔ ((a ≡ answered) × (c.go_client ≢ none)))
      × ((is_alive a c).0
          ≡ record { go_client = if is_silent a then none else c.go_client; probing = false })
is_alive-probing a c h =
    let same : c ≡ record { go_client = c.go_client; probing = false } = ground (arith, h) in
    rw (sym same) at (idle-Probed a c.go_client)
