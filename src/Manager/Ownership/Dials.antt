-- ===== src/Manager/Ownership/Dials.antt =====
-- The invariant when a dial has come back.
use agmux.Base.{
  ℕ, String, ◌≡◌, ◌<◌, inl, inr, refl, none, Bool, true, false, update, arith, Bool-cases,
}
use agmux.Session.{
  Status, connecting, reconnecting, Session, ssh, local, is_local, client_of, get_status,
}
use agmux.Manager.{
  Manager, DialResult, accepted, refused, open_client, close_client, adopt_if, Error,
  finish_connect, finish_reconnect, still_registered, adopted_or,
}
use agmux.Manager.Ownership.{IsFine, Owned}
use agmux.Manager.Ownership.Registry
use agmux.Manager.Ownership.Sections

connecting_empty :
    (s : Session) → IsFine s → is_local s ≡ false → get_status s ≡ connecting → client_of s ≡ none
unfolding is_local get_status client_of
connecting_empty (ssh s) f l e = f.1 e
connecting_empty (local s) f l e = cc

adopted_or-same : (ref : ℕ) (e : Error) (p : Manager × Bool) → (adopted_or e ref p).0 ≡ p.0
unfolding adopted_or
adopted_or-same ref e (n, true) = refl
adopted_or-same ref e (n, false) = refl

-- A new client is adopted or closed: none is left in hand.
module _ {held : ℕ → Bool} {m : Manager} (h : Owned held m) (ref : ℕ) (below : ref < m.next_ref)
    (remote : is_local (m.heap ref) ≡ false) where
  restore : (c : ℕ) → m.next_client ≡ c → (d : ℕ) → update (update held c true) c false d ≡ held d
  restore c e d = elim (Bool-cases (held c)) [
    | inl k ↦ ground (arith, h.in_hand c k, h.in_range c)
    | inr k ↦ ground arith
  ]

  adopt_new-Owned :
      (expected : Status)
      → (get_status (m.heap ref) ≡ expected → client_of (m.heap ref) ≡ none)
      → Owned held (adopt_if expected ref m.next_client (open_client m)).0
  unfolding open_client
  adopt_new-Owned expected empty =
      Registry.Owned-of_same
        (Sections.adopt_if-Owned (Registry.open_client-Owned h) ref expected (ground arith) below
          remote empty)
        held (restore m.next_client refl)

  pub finish_connect-Owned :
      (name : String) (d : DialResult) → Owned held (finish_connect name ref d m).0
  unfolding finish_connect
  finish_connect-Owned name refused =
      Registry.remove-Owned (Sections.set_status_fail-Owned h ref) name
  finish_connect-Owned name accepted =
      rw adopted_or-same
        (adopt_new-Owned connecting (connecting_empty (m.heap ref) (h.fine ref) remote))

  close_new-Owned : Owned held (close_client m.next_client (open_client m))
  close_new-Owned =
      Registry.Owned-of_same
        (Registry.close_client-Owned (Registry.open_client-Owned h) m.next_client (ground arith))
        held (restore m.next_client refl)

  -- The session lost its client when the reconnect began.
  pub finish_reconnect-Owned :
      (name : String) (d : DialResult)
      → (get_status (m.heap ref) ≡ reconnecting → client_of (m.heap ref) ≡ none)
      → Owned held (finish_reconnect name ref d m).0
  unfolding finish_reconnect
  finish_reconnect-Owned name refused empty = Sections.set_status_fail-Owned h ref
  finish_reconnect-Owned name accepted empty =
      elim (Bool-cases (still_registered name ref (open_client m))) [
        | inl e ↦ rw e (rw adopted_or-same (adopt_new-Owned reconnecting empty))
        | inr e ↦ rw e close_new-Owned
      ]
