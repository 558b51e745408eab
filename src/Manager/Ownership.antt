-- ===== src/Manager/Ownership.antt =====
-- Who owns an open connection: one session, or a call that is still at work.
pub mod Steps
pub mod Registry
pub mod Sections
pub mod Dials
pub mod Calls
pub mod Methods
pub mod History
use agmux.Base.{
  ℕ, suc, String, ◌≡◌, ◌≢◌, ◌≤◌, ◌<◌, ◌⊎◌, Option, none, some, Bool, true, false, lookup,
}
use agmux.Session.{Status, connected, connecting, Session, ssh, local, client_of, get_name}
use agmux.Manager.{Manager}

-- A connected session has a client, and one that is connecting for the first time has none.
abbrev pub IsFine : Session → Type 0
IsFine (ssh s) =
    (s.status ≡ connected → s.client ≢ none) × (s.status ≡ connecting → s.client ≡ none)
IsFine (local s) = Unit

-- `held c` is true of the clients in the hands of calls at work.
pub record Owned (held : ℕ → Bool) (m : Manager) : Type 0 where
  pub in_range : (c : ℕ) → m.is_open c ≡ true → c < m.next_client
  pub owned :
      (c : ℕ)
      → m.is_open c ≡ true
      → (held c ≡ true) ⊎ ((ref : ℕ) × (client_of (m.heap ref) ≡ some c))
  pub attached :
      (ref c : ℕ) → client_of (m.heap ref) ≡ some c → (m.is_open c ≡ true) × (held c ≡ false)
  pub in_hand : (c : ℕ) → held c ≡ true → m.is_open c ≡ true
  pub unique : (r s c : ℕ) → client_of (m.heap r) ≡ some c → client_of (m.heap s) ≡ some c → r ≡ s
  pub fine : (ref : ℕ) → IsFine (m.heap ref)
  pub named :
      (k : String) (ref : ℕ)
      → lookup k m.sessions ≡ some ref
      → (get_name (m.heap ref) ≡ k) × (ref < m.next_ref)
  pub fresh : (ref : ℕ) → m.next_ref ≤ ref → client_of (m.heap ref) ≡ none
