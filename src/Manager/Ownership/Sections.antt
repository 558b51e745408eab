-- ===== src/Manager/Ownership/Sections.antt =====
-- The invariant under each critical section of the manager.
use agmux.Base.{
  ℕ, String, ◌≡◌, ◌<◌, inl, inr, refl, sym, ◌∙◌, none, some, Bool, true, false, update, arith,
  Bool-cases, Option-cases,
}
use agmux.Session.{
  Status, reconnecting, offline, Session, ssh, local, is_local, client_of, get_name, get_status,
  status_eq, status_eq_sound, set_status, close, take_client, adopt_client, set_credentials,
}
use agmux.Manager.{Manager, close_option, modify, adopt_if, begin_reconnect}
use agmux.Manager.Ownership.{IsFine, Owned}
use agmux.Manager.Ownership.Steps
use agmux.Manager.Ownership.Registry

-- What each method of a session does to its name, its client and its state.
set_status-kept :
    (st : Status) (s : Session)
    → (get_name (set_status st s) ≡ get_name s) × (client_of (set_status st s) ≡ client_of s)
unfolding set_status get_name client_of
set_status-kept st (ssh s) = (refl, refl)
set_status-kept st (local s) = (refl, refl)

mark_IsFine : (s : Session) → IsFine (set_status reconnecting s)
unfolding set_status
mark_IsFine (ssh s) = ground arith
mark_IsFine (local s) = tt

fail_IsFine : (s : Session) → IsFine (set_status offline s)
unfolding set_status
fail_IsFine (ssh s) = ground arith
fail_IsFine (local s) = tt

set_credentials-kept :
    (p k : String) (s : Session)
    → IsFine s
    → (get_name (set_credentials p k s) ≡ get_name s)
      × (client_of (set_credentials p k s) ≡ client_of s)
      × IsFine (set_credentials p k s)
unfolding set_credentials get_name client_of
set_credentials-kept p k (ssh s) h = (refl, refl, h)
set_credentials-kept p k (local s) h = (refl, refl, tt)

close-kept :
    (s : Session)
    → (get_name (close s) ≡ get_name s) × (client_of (close s) ≡ none) × IsFine (close s)
unfolding close get_name client_of
close-kept (ssh s) = ground arith
close-kept (local s) = (refl, refl, tt)

take-kept :
    (s : Session)
    → get_status s ≡ reconnecting
    → (get_name (take_client s) ≡ get_name s)
      × (client_of (take_client s) ≡ none)
      × IsFine (take_client s)
unfolding take_client get_status get_name client_of
take-kept (ssh s) e = ground arith
take-kept (local s) e = (refl, refl, tt)

get_status-set_status : (st : Status) (s : Session) → get_status (set_status st s) ≡ st
unfolding get_status set_status
get_status-set_status st (ssh s) = refl
get_status-set_status st (local s) = refl

adopt-kept :
    (c : ℕ) (s : Session)
    → is_local s ≡ false
    → (get_name (adopt_client c s) ≡ get_name s)
      × (client_of (adopt_client c s) ≡ some c)
      × IsFine (adopt_client c s)
unfolding adopt_client get_name client_of is_local
adopt-kept c (ssh s) k = ground arith
adopt-kept c (local s) k = cc

module _ {held : ℕ → Bool} {m : Manager} (h : Owned held m) (ref : ℕ) where
  pub set_status_fail-Owned : Owned held (modify (set_status offline) ref m)
  unfolding modify
  set_status_fail-Owned =
      let (n, c) = set_status-kept offline (m.heap ref) in
      Steps.put_same-Owned h ref (set_status offline (m.heap ref)) n (fail_IsFine (m.heap ref)) c

  pub mark-Owned : Owned held (modify (set_status reconnecting) ref m)
  unfolding modify
  mark-Owned =
      let (n, c) = set_status-kept reconnecting (m.heap ref) in
      Steps.put_same-Owned h ref (set_status reconnecting (m.heap ref)) n (mark_IsFine (m.heap ref))
        c

  pub set_credentials-Owned : (p k : String) → Owned held (modify (set_credentials p k) ref m)
  unfolding modify
  set_credentials-Owned p k =
      let (n, c, f) = set_credentials-kept p k (m.heap ref) (h.fine ref) in
      Steps.put_same-Owned h ref (set_credentials p k (m.heap ref)) n f c

  -- Taking a client off a session and closing it leaves nothing in hand.
  release-Owned :
      (s : Session)
      → get_name s ≡ get_name (m.heap ref)
      → client_of s ≡ none
      → IsFine s
      → Owned held (close_option (client_of (m.heap ref)) (Steps.put ref s m))
  release-Owned s name empty ok = elim (Option-cases (client_of (m.heap ref))) [
    | inl e ↦ rw e (unfold close_option in Steps.put_same-Owned h ref s name ok (empty ∙ sym e))
    | inr (c, e) ↦
        let taken = Steps.detach-Owned h ref s name ok e empty in
        let closed = Registry.close_client-Owned taken c (ground arith) in
        rw e (
          unfold close_option in
          Registry.Owned-of_same closed held (λ d. ground (arith, h.attached ref c e)))
  ]

  pub close_marked-Owned : Owned held (close_option (client_of (m.heap ref)) (modify close ref m))
  unfolding modify
  close_marked-Owned =
      let (n, e, f) = close-kept (m.heap ref) in release-Owned (close (m.heap ref)) n e f

pub update_self : {A : Type 0} (f : ℕ → A) (k : ℕ) (v : A) → update f k v k ≡ v
update_self f k v = ground arith

pub modify_at :
    (f : Session → Session) (ref : ℕ) (m : Manager) → (modify f ref m).heap ref ≡ f (m.heap ref)
unfolding modify
modify_at f ref m = update_self m.heap ref (f (m.heap ref))

-- Up to the dial of a reconnect: the session has no client, and none is in hand.
module _ {held : ℕ → Bool} {m : Manager} (h : Owned held m) (ref : ℕ) where
  pub begin_reconnect-Owned : Owned held (begin_reconnect ref m)
  unfolding begin_reconnect
  begin_reconnect-Owned =
      let marked = modify (set_status reconnecting) ref m in
      let at : get_status (marked.heap ref) ≡ reconnecting =
        rw modify_at (get_status-set_status reconnecting (m.heap ref)) in
      let (n, e, f) = take-kept (marked.heap ref) at in
      unfold modify in release-Owned (mark-Owned h ref) ref (take_client (marked.heap ref)) n e f

  pub adopt_if-Owned :
      (expected : Status) {c : ℕ}
      → held c ≡ true
      → ref < m.next_ref
      → is_local (m.heap ref) ≡ false
      → (get_status (m.heap ref) ≡ expected → client_of (m.heap ref) ≡ none)
      → Owned (update held c false) (adopt_if expected ref c m).0
  unfolding adopt_if
  adopt_if-Owned expected {c} mine below remote empty =
      elim (Bool-cases (status_eq (get_status (m.heap ref)) expected)) [
        | inl e ↦
            let (n, k, f) = adopt-kept c (m.heap ref) remote in
            rw e (
              unfold modify in
              Steps.attach-Owned h ref (adopt_client c (m.heap ref)) n f
                (empty (status_eq_sound _ expected e)) mine k below)
        | inr e ↦ rw e (Registry.close_client-Owned h c mine)
      ]
