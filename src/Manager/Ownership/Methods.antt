-- ===== src/Manager/Ownership/Methods.antt =====
-- No method of the manager leaks a connection.
use agmux.Base.{
  ℕ, String, ℤ, ◌≡◌, ◌<◌, inl, inr, refl, none, Bool, false, lookup, arith, Bool-cases,
  Option-cases, if◌then◌else◌, str_eq, List, [], ◌∷◌,
}
use agmux.Session.{
  Status, offline, disconnected, Session, ssh, local, is_local, client_of, get_name, get_status,
}
use agmux.Manager.Await.{Poll}
use agmux.Manager.{
  Manager, DialResult, Request, allocate, set_default, resolve, begin_connect, new_session,
  session_name, finish_connect,
}
use agmux.Manager.Methods.{
  continue_connect, connect_ssh, connect_local, new_local, reuse_local, close_session, kill,
  use_status, use_session, close_all, kill_all, register_offline_session, reconnect,
}
use agmux.Manager.Ownership.{IsFine, Owned}
use agmux.Manager.Ownership.Registry
use agmux.Manager.Ownership.Sections
use agmux.Manager.Ownership.Dials
use agmux.Manager.Ownership.Calls

new_session-kept :
    (r : Request) (name : String) (now : ℤ)
    → (get_name (new_session r name now) ≡ name)
      × (client_of (new_session r name now) ≡ none)
      × IsFine (new_session r name now)
      × (is_local (new_session r name now) ≡ false)
unfolding new_session get_name client_of is_local
new_session-kept r name now = ground arith

new_local-kept :
    (name user : String) (now : ℤ)
    → (get_name (new_local name user now) ≡ name)
      × (client_of (new_local name user now) ≡ none)
      × IsFine (new_local name user now)
unfolding new_local get_name client_of
new_local-kept name user now = (refl, refl, tt)

module _ {held : ℕ → Bool} {m : Manager} (h : Owned held m) where
  new-Owned :
      (r : Request) (now : ℤ) (d : DialResult)
      → let name = session_name r in
        Owned held
          (finish_connect name m.next_ref d
            (set_default name (allocate name (new_session r name now) m))).0
  new-Owned r now d =
      let name = session_name r in
      let s = new_session r name now in
      let (n, c, f, l) = new_session-kept r name now in
      Dials.finish_connect-Owned
        (Registry.set_default-Owned (Registry.allocate-Owned h name s n c f) name) m.next_ref
        (unfold set_default allocate in omega arith)
        (unfold set_default allocate in rw (Sections.update_self m.heap m.next_ref s) l) name d

  pub connect_ssh-Owned :
      (r : Request) (now : ℤ) (polls : List Poll) (d : DialResult)
      → Owned held (connect_ssh r now polls d m).0
  unfolding connect_ssh begin_connect
  connect_ssh-Owned r now polls d = elim (Option-cases (lookup (session_name r) m.sessions)) [
    | inl e ↦ rw (e, connect_ssh, begin_connect) (unfold continue_connect in new-Owned r now d)
    | inr (ref, e) ↦
        rw (e, connect_ssh, begin_connect)
          (Calls.begin_existing-Owned h r polls d (session_name r) ref (m.heap ref)
            (h.named (session_name r) ref e).1 refl)
  ]

  reuse_local-Owned :
      (name : String) (ref : ℕ) (s : Session) → Owned held (reuse_local name ref s m).0
  unfolding reuse_local
  reuse_local-Owned name ref (local s) = Registry.set_default-Owned h name
  reuse_local-Owned name ref (ssh s) = h

  pub connect_local-Owned :
      (given user : String) (now : ℤ) → Owned held (connect_local given user now m).0
  unfolding connect_local
  connect_local-Owned given user now =
      let name : String = if str_eq given "" then "local" else given in
      elim (Option-cases (lookup name m.sessions)) [
        | inl e ↦
            rw (e, connect_local)
              (let (n, c, f) = new_local-kept name user now in
                Registry.set_default-Owned
                  (Registry.allocate-Owned h name (new_local name user now) n c f) name)
        | inr (ref, e) ↦ rw (e, connect_local) (reuse_local-Owned name ref (m.heap ref))
      ]

  pub kill-Owned : (given : String) → Owned held (kill given m).0
  unfolding kill
  kill-Owned given = elim (Option-cases (lookup (resolve given m) m.sessions)) [
    | inl e ↦ rw (e, kill) h
    | inr (ref, e) ↦
        rw (e, kill) (Calls.close_session-Owned (Registry.remove-Owned h (resolve given m)) ref)
  ]

  pub register_offline-Owned :
      (name user host : String) (port : ℤ) (key_path : String) (created_at : ℤ)
      → Owned held (register_offline_session name user host port key_path created_at m)
  unfolding register_offline_session
  register_offline-Owned name user host port key_path created_at =
      Registry.allocate-Owned h name _ (unfold get_name in refl) (unfold client_of in refl)
        (ground arith)

  pub reconnect-Owned : (name : String) (d : DialResult) → Owned held (reconnect name d m).0
  unfolding reconnect
  reconnect-Owned name d = elim (Option-cases (lookup name m.sessions)) [
    | inl e ↦ rw (e, reconnect) h
    | inr (ref, e) ↦
        rw (e, reconnect)
          (elim (Bool-cases (is_local (m.heap ref))) [
            | inl l ↦ rw l h
            | inr l ↦ rw l (Calls.reconnect_ssh-Owned h ref d (h.named name ref e).1 l)
          ])
  ]

close_all-Owned :
    {held : ℕ → Bool} (l : List (String × ℕ)) {m : Manager}
    → Owned held m
    → Owned held (close_all l m)
unfolding close_all
close_all-Owned [] h = h
close_all-Owned ((k, ref) ∷ l) {m} h =
    close_all-Owned l {m = close_session ref m} (Calls.close_session-Owned h ref)

pub kill_all-Owned : {held : ℕ → Bool} {m : Manager} → Owned held m → Owned held (kill_all m)
unfolding kill_all
kill_all-Owned {m = m} h = close_all-Owned m.sessions (Registry.clear-Owned h)

use_status-Owned :
    {held : ℕ → Bool} {m : Manager}
    → Owned held m
    → (p k : String) (ref : ℕ) (d : DialResult) (st : Status) → ref < m.next_ref
    → is_local (m.heap ref) ≡ false
    → Owned held (use_status p k ref d st m).0
unfolding use_status
use_status-Owned h p k ref d offline below remote = Calls.redial-Owned h ref p k d below remote
use_status-Owned h p k ref d disconnected below remote = Calls.redial-Owned h ref p k d below remote
use_status-Owned h p k ref d _ below remote = h

pub use_session-Owned :
    {held : ℕ → Bool} {m : Manager}
    → Owned held m
    → (given p k : String) (d : DialResult) → Owned held (use_session given p k d m).0
unfolding use_session
use_session-Owned {m = m} h given p k d =
    elim (Option-cases (lookup (resolve given m) m.sessions)) [
      | inl e ↦ rw (e, use_session) h
      | inr (ref, e) ↦
          rw (e, use_session)
            (elim (Bool-cases (is_local (m.heap ref))) [
              | inl l ↦ rw l (Registry.set_default-Owned h (resolve given m))
              | inr l ↦ rw l (
                  use_status-Owned (Registry.set_default-Owned h (resolve given m)) p k ref d
                    (get_status (m.heap ref))
                    (unfold set_default in (h.named (resolve given m) ref e).1)
                    (unfold set_default in l))
            ])
    ]
