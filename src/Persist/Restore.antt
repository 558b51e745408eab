-- ===== src/Persist/Restore.antt =====
-- Sessions through the state file.
use agmux.Base.{
  ℕ, suc, ◌<◌, String, ℤ, ◌≡◌, ◌≢◌, refl, sym, ◌∙◌, Option, none, some, List, [], ◌∷◌, map,
  if◌then◌else◌, update, lookup, insert, lookup-insert, lookup-nil, str_eq, eq_iff, arith, All,
  Bool-cases, inl, inr,
}
use agmux.Session.{
  Session, ssh, local, get_name, offline, get_type, get_host, get_user, get_created_at,
}
use agmux.Manager.{Manager, new_manager, allocate, set_default}
use agmux.Manager.Methods.{connect_local, register_offline_session, list, new_local}
use agmux.Server.{Server}
use agmux.Persist.{
  session_to_state, collect_state, StateCodec, save, load, restore_one, restore_all, restore_state,
  restore_loaded, stop,
}

-- A session as a restart leaves it.
unfoldable pub restored : String → ℤ → Session → Session
restored user now (ssh s) =
    ssh (record s { password = ""; status = offline; client = none; last_cmd = [] })
restored user now (local s) = new_local s.name user now

-- Go's map has each key once.
abbrev pub Distinct : List (String × ℕ) → Type 0
Distinct [] = Unit
Distinct (e ∷ es) = (lookup e.0 es ≡ none) × Distinct es

-- A new session `s` under its name.
record Added (s : Session) (m n : Manager) : Type 0 where
  sessions : n.sessions ≡ insert (get_name s) m.next_ref m.sessions
  next_ref : n.next_ref ≡ suc m.next_ref
  heap : n.heap ≡ update m.heap m.next_ref s

connect_local_new :
    (name user : String) (now : ℤ) (m : Manager)
    → name ≢ ""
    → lookup name m.sessions ≡ none
    → (connect_local name user now m).0
      ≡ set_default name (allocate name (new_local name user now) m)
unfolding connect_local
connect_local_new name user now m full e = elim (Bool-cases (str_eq name "")) [
  | inl q ↦ absurd (full ((eq_iff name "").0 q))
  | inr q ↦
      (let same : (if str_eq name "" then "local" else name) ≡ name = rw q refl in
        rw (connect_local, same, e) (rw same refl))
]

restore_one-Added :
    (user : String) (now : ℤ) (s : Session) (m : Manager)
    → get_name s ≢ ""
    → lookup (get_name s) m.sessions ≡ none
    → Added (restored user now s) m (restore_one user now (session_to_state s) m)
unfolding restore_one session_to_state get_type get_name get_host get_user get_created_at
    register_offline_session allocate restored set_default new_local
restore_one-Added user now (ssh s) m full e = record {
  sessions = refl;
  next_ref = refl;
  heap = refl;
}
restore_one-Added user now (local s) m full e =
    rw (connect_local_new s.name user now m full e)
      (record { sessions = refl; next_ref = refl; heap = refl })

-- What the restored sessions come from: entries that carry their own, not empty, name.
abbrev pub Named : (ℕ → Session) → String × ℕ → Type 0
Named heap e = (get_name (heap e.1) ≡ e.0) × (e.0 ≢ "")

lookup-cons :
    (k : String) (e : String × ℕ) (es : List (String × ℕ))
    → lookup k (e ∷ es) ≡ (if str_eq e.0 k then some e.1 else lookup k es)
unfolding lookup
lookup-cons k e es = refl

abbrev Absent : Manager → String × ℕ → Type 0
Absent m e = lookup e.0 m.sessions ≡ none

Absent-Added :
    (s : Session) (m n : Manager) (es : List (String × ℕ))
    → Added s m n
    → lookup (get_name s) es ≡ none
    → All (Absent m) es
    → All (Absent n) es
Absent-Added s m n [] a h hs = tt
Absent-Added s m n (e ∷ es) a h (hf, hfs) = (
  rw (a.sessions, lookup-insert)
      (ground (arith, hf, rw lookup-cons at h, eq_iff (get_name s) e.0, eq_iff e.0 (get_name s))),
  Absent-Added s m n es a (ground (arith, rw lookup-cons at h)) hfs,
)

restored-name :
    (user : String) (now : ℤ) (s : Session) → get_name (restored user now s) ≡ get_name s
unfolding restored get_name new_local
restored-name user now (ssh s) = refl
restored-name user now (local s) = refl

module _ (user : String) (now : ℤ) (heap : ℕ → Session) where
  restore_list : List (String × ℕ) → Manager → Manager
  restore_list es m = restore_all user now (collect_state (map (λ (e : String × ℕ). heap e.1) es)) m

  first : String × ℕ → Manager → Manager
  first e m = restore_one user now (session_to_state (heap e.1)) m

  restore_list-cons :
      (e : String × ℕ) (es : List (String × ℕ)) (m : Manager)
      → restore_list (e ∷ es) m ≡ restore_list es (first e m)
  unfolding restore_list restore_all collect_state first
  restore_list-cons e es m = refl

  first-Added :
      (e : String × ℕ) (m : Manager)
      → Named heap e
      → Absent m e
      → Added (restored user now (heap e.1)) m (first e m)
  unfolding first
  first-Added e m (named, full) absent =
      restore_one-Added user now (heap e.1) m (rw named full) (rw named absent)

  -- A name that is not among the entries, and the sessions that stand in the heap, stay.
  restore_list_keeps :
      (es : List (String × ℕ)) (m : Manager)
      → All (Named heap) es
      → Distinct es
      → All (Absent m) es
      → ((k : String)
          → lookup k es ≡ none
          → lookup k (restore_list es m).sessions ≡ lookup k m.sessions)
        × ((ref : ℕ) → ref < m.next_ref → (restore_list es m).heap ref ≡ m.heap ref)
  restore_list_keeps [] m hn hd hf =
      unfold restore_list in
      unfold restore_all in unfold collect_state in (λ k h. refl, λ ref h. refl)
  restore_list_keeps (e ∷ es) m (hn, hns) (hd, hds) (hf, hfs) =
      let a = first-Added e m hn hf in
      let name : get_name (restored user now (heap e.1)) ≡ e.0 =
        restored-name user now (heap e.1) ∙ hn.0 in
      let (names, cells) =
        restore_list_keeps es (first e m) hns hds
          (Absent-Added _ m (first e m) es a (rw name hd) hfs) in
      rw restore_list-cons (
        λ k h.
            names k (ground (arith, rw lookup-cons at h))
            ∙ rw (a.sessions, lookup-insert, name) (ground (arith, rw lookup-cons at h)),
        λ ref h. cells ref (rw a.next_ref (omega arith)) ∙ rw a.heap (ground arith),
      )

  restore_list_finds :
      (es : List (String × ℕ)) (m : Manager)
      → All (Named heap) es
      → Distinct es
      → All (Absent m) es
      → (k : String) (ref : ℕ) → lookup k es ≡ some ref
      → (new : ℕ) × (lookup k (restore_list es m).sessions ≡ some new)
        × ((restore_list es m).heap new ≡ restored user now (heap ref))
  restore_list_finds [] m hn hd hf k ref h = cc (sym (lookup-nil k) ∙ h)
  restore_list_finds (e ∷ es) m (hn, hns) (hd, hds) (hf, hfs) k ref h =
      let a = first-Added e m hn hf in
      let name : get_name (restored user now (heap e.1)) ≡ e.0 =
        restored-name user now (heap e.1) ∙ hn.0 in
      let absent = Absent-Added _ m (first e m) es a (rw name hd) hfs in
      elim (Bool-cases (str_eq e.0 k)) [
        | inl q ↦
            (let key : e.0 ≡ k = (eq_iff e.0 k).0 q in
              let this : e.1 ≡ ref = ground (arith, rw (lookup-cons, q) at h) in
              let (names, cells) = restore_list_keeps es (first e m) hns hds absent in
              (
                m.next_ref,
                rw restore_list-cons
                    (names k (rw key at hd) ∙ rw (a.sessions, lookup-insert, name) (rw q refl)),
                rw restore_list-cons (
                    cells m.next_ref (rw a.next_ref (omega arith))
                    ∙ rw (a.heap, this) (ground arith)),
              ))
        | inr q ↦
            (let (new, found, same) =
                restore_list_finds es (first e m) hns hds absent k ref (rw (lookup-cons, q) at h) in
              (new, rw restore_list-cons found, rw restore_list-cons same))
      ]

new_manager-Absent : (es : List (String × ℕ)) → All (Absent new_manager) es
unfolding new_manager
new_manager-Absent [] = tt
new_manager-Absent (e ∷ es) = (lookup-nil e.0, new_manager-Absent es)

-- What a restart brings back under the name `k`, which led to the session `o` of the heap.
abbrev pub ComesBack : String → ℤ → (ℕ → Session) → Option ℕ → String → Manager → Type 0
ComesBack user now heap none k n = lookup k n.sessions ≡ none
ComesBack user now heap (some ref) k n =
    (new : ℕ) × (lookup k n.sessions ≡ some new) × (n.heap new ≡ restored user now (heap ref))

restore_list-ComesBack :
    (user : String) (now : ℤ) (m : Manager) (k : String) (o : Option ℕ)
    → All (Named m.heap) m.sessions
    → Distinct m.sessions
    → lookup k m.sessions ≡ o
    → ComesBack user now m.heap o k (restore_list user now m.heap m.sessions new_manager)
restore_list-ComesBack user now m k none named distinct e =
    let (names, cells) =
      restore_list_keeps user now m.heap m.sessions new_manager named distinct
        (new_manager-Absent m.sessions) in
    names k e ∙ unfold new_manager in lookup-nil k
restore_list-ComesBack user now m k (some ref) named distinct e =
    restore_list_finds user now m.heap m.sessions new_manager named distinct
      (new_manager-Absent m.sessions) k ref e

-- If the state file that Stop writes can be read back, the next daemon has the same session names:
-- an SSH session comes back with its host, user, port, key path and time of creation, offline,
-- without client, password and last command; a local session as if it were just created.
pub restore_state-stop :
    (c : StateCodec) (s : Server) (user : String) (now : ℤ)
    → (let states = collect_state (list s.manager) in c.unmarshal (c.marshal states) ≡ some states)
    → All (Named s.manager.heap) s.manager.sessions
    → Distinct s.manager.sessions
    → (k : String)
    → ComesBack user now s.manager.heap
        (lookup k s.manager.sessions)
        k
        (restore_state c user now (stop c s).1 new_manager).0
unfolding restore_state restore_loaded load stop save
restore_state-stop c s user now codec named distinct k = rw codec (
    unfold list in
    unfold restore_list in
    restore_list-ComesBack user now s.manager k (lookup k s.manager.sessions) named distinct refl)
