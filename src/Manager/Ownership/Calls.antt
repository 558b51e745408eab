-- ===== src/Manager/Ownership/Calls.antt =====
-- The invariant under each method of the manager.
use agmux.Base.{
  ℕ, String, ◌≡◌, ◌<◌, inl, inr, refl, ap, ◌∙◌, Option, none, some, Bool, false, Bool-cases, List,
}
use agmux.Session.{
  Status, connected, connecting, reconnecting, Session, ssh, local, is_local, client_of, get_name,
  get_status, set_status, take_client, set_credentials,
}
use agmux.Manager.Await.{Poll}
use agmux.Manager.{
  Manager, DialResult, Request, close_client, close_option, set_default, modify, begin_existing,
  begin_same, begin_reconnect, same_target,
}
use agmux.Manager.Methods.{reconnect_ssh, continue_connect, close_session}
use agmux.Manager.Ownership.{Owned}
use agmux.Manager.Ownership.Registry
use agmux.Manager.Ownership.Sections
use agmux.Manager.Ownership.Dials

is_local-kept :
    (s : Session)
    → (is_local (take_client (set_status reconnecting s)) ≡ is_local s)
      × (get_status (take_client (set_status reconnecting s)) ≡ reconnecting)
      × (client_of (take_client (set_status reconnecting s)) ≡ none)
unfolding take_client set_status is_local get_status client_of
is_local-kept (ssh s) = (refl, refl, refl)
is_local-kept (local s) = (refl, refl, refl)

is_local-set_credentials :
    (p k : String) (s : Session) → is_local (set_credentials p k s) ≡ is_local s
unfolding set_credentials is_local
is_local-set_credentials p k (ssh s) = refl
is_local-set_credentials p k (local s) = refl

close_option-heap :
    (c : Option ℕ) (m : Manager)
    → ((close_option c m).heap ≡ m.heap) × ((close_option c m).next_ref ≡ m.next_ref)
unfolding close_option close_client
close_option-heap none m = (refl, refl)
close_option-heap (some c) m = (refl, refl)

begin_reconnect_at :
    (ref : ℕ) (m : Manager)
    → ((begin_reconnect ref m).heap ref ≡ take_client (set_status reconnecting (m.heap ref)))
      × ((begin_reconnect ref m).next_ref ≡ m.next_ref)
unfolding begin_reconnect
begin_reconnect_at ref m =
    let marked = modify (set_status reconnecting) ref m in
    let c = client_of (marked.heap ref) in
    let (e, n) = close_option-heap c (modify take_client ref marked) in
    (
      ap (λ (f : ℕ → Session). f ref) e ∙ rw (Sections.modify_at, Sections.modify_at),
      n ∙ unfold modify in refl,
    )

module _ {held : ℕ → Bool} {m : Manager} (h : Owned held m) where
  pub reconnect_ssh-Owned :
      (ref : ℕ) (d : DialResult)
      → ref < m.next_ref
      → is_local (m.heap ref) ≡ false
      → Owned held (reconnect_ssh ref d m).0
  unfolding reconnect_ssh
  reconnect_ssh-Owned ref d below remote =
      let (at, n) = begin_reconnect_at ref m in
      let (l, st, c) = is_local-kept (m.heap ref) in
      Dials.finish_reconnect-Owned (Sections.begin_reconnect-Owned h ref) ref (rw n below)
        (ap is_local at ∙ l ∙ remote) (get_name (m.heap ref)) d (λ _. ap client_of at ∙ c)

  pub close_session-Owned : (ref : ℕ) → Owned held (close_session ref m)
  unfolding close_session
  close_session-Owned ref = Sections.close_marked-Owned h ref

-- A reconnect with new credentials.
module _ {held : ℕ → Bool} {m : Manager} (h : Owned held m) where
  pub redial-Owned :
      (ref : ℕ) (p k : String) (d : DialResult)
      → ref < m.next_ref
      → is_local (m.heap ref) ≡ false
      → Owned held (reconnect_ssh ref d (modify (set_credentials p k) ref m)).0
  redial-Owned ref p k d below remote =
      reconnect_ssh-Owned (Sections.set_credentials-Owned h ref p k) ref d (unfold modify in below)
        (ap is_local (Sections.modify_at (set_credentials p k) ref m)
          ∙ is_local-set_credentials p k (m.heap ref)
          ∙ remote)

-- The default changes nothing else, so the facts about a session carry over.
begin_same-Owned :
    {held : ℕ → Bool} {m : Manager}
    → Owned held m
    → (r : Request) (polls : List Poll) (d : DialResult) (name : String) (ref : ℕ) (st : Status)
    → ref < m.next_ref
    → is_local (m.heap ref) ≡ false
    → Owned held (continue_connect r polls d (begin_same name ref st m)).0
unfolding begin_same continue_connect
begin_same-Owned h r polls d name ref connected below remote = Registry.set_default-Owned h name
begin_same-Owned h r polls d name ref connecting below remote = Registry.set_default-Owned h name
begin_same-Owned h r polls d name ref reconnecting below remote = Registry.set_default-Owned h name
begin_same-Owned h r polls d name ref _ below remote =
    redial-Owned (Registry.set_default-Owned h name) ref r.password r.key_path d
      (unfold set_default in below) (unfold set_default in remote)

pub begin_existing-Owned :
    {held : ℕ → Bool} {m : Manager}
    → Owned held m
    → (r : Request) (polls : List Poll) (d : DialResult) (name : String) (ref : ℕ) (s : Session)
    → ref < m.next_ref
    → m.heap ref ≡ s
    → Owned held (continue_connect r polls d (begin_existing r name ref s m)).0
unfolding begin_existing
begin_existing-Owned h r polls d name ref (ssh s) below e = elim (Bool-cases (same_target r s)) [
  | inl k ↦
      rw k (begin_same-Owned h r polls d name ref s.status below (rw e (unfold is_local in refl)))
  | inr k ↦ rw k (unfold continue_connect in h)
]
begin_existing-Owned h r polls d name ref (local s) below e = unfold continue_connect in h
