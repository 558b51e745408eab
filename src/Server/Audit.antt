-- ===== src/Server/Audit.antt =====
-- internal/server/server.go: which requests leave an entry in the audit log.
use agmux.Base.{
  ℕ, String, ◌≡◌, refl, ap, Option, none, some, Bool, true, false, List, [], ◌∷◌, ◌++◌, map,
  append-nil, Bytes, Bool-cases, inl, inr,
}
use agmux.Manager.{Manager, Outcome, returned, failed, blocked, get}
use agmux.Manager.Methods
use agmux.Manager.Await.{AwaitResult, got_client, await_client}
use agmux.Monitor.{stop_watch, watch}
use agmux.Session.{is_local, get_name}
use agmux.Forward.{Spec}
use agmux.Forward.Service.{Service, Added, added, not_added, Closed, add}
use agmux.Forward.Service
use agmux.Exec.{Err, ExecResult}
use agmux.Exec.Executor.{ExecReply, ran, session_error}
use agmux.Server.{Server, Entry, log, log_exec, plain_entry}
use agmux.Server.Messages.{Request}
use agmux.Server.Messages
use agmux.Server.Handlers.{
  World, Reply, pending, killed, connected_reply, handle_connect, local_reply, handle_local,
  killed_reply, handle_kill, exec_outcome, exec_reply, handle_exec, handle_local_exec, handle_list,
  rearm, rearm_found, was_offline, used_reply, handle_use, added_reply, add_over, forward_over,
  handle_forward, handle_forwards, closed_reply, handle_forward_close,
}
use agmux.Server.Dispatch.{handle_scp, ls_reply, done_reply, sftp_entry, dispatch}

abbrev pub actions : Server → List String
actions s = map (λ (e : Entry). e.action) s.audit

-- The entries of a request with its reply.
abbrev pub audited : Request → Reply → List String
audited (Messages.connect p) pending = []
audited (Messages.connect p) r = "connect" ∷ []
audited (Messages.kill name) killed = "kill" ∷ []
audited (Messages.exec p) r = "exec" ∷ []
audited (Messages.local_exec p) r = "exec" ∷ []
audited (Messages.scp p) r = "scp" ∷ []
audited (Messages.sftp_ls p) r = "sftp_ls" ∷ []
audited (Messages.sftp_mkdir p) r = "sftp_mkdir" ∷ []
audited (Messages.sftp_rm p) r = "sftp_rm" ∷ []
audited q r = []

-- `x` is what becomes of `s` with the entries `l`.
abbrev Logs : Server → List String → Server → Type 0
Logs s l x = actions x ≡ actions s ++ l

map_append :
    (l m : List Entry)
    → map (λ (e : Entry). e.action) (l ++ m)
      ≡ map (λ (e : Entry). e.action) l ++ map (λ (e : Entry). e.action) m
map_append [] m = refl
map_append (x ∷ l) m = ap (λ (t : List String). x.action ∷ t) (map_append l m)

log-Logs : (e : Entry) (s : Server) → Logs s (e.action ∷ []) (log e s)
unfolding log
log-Logs e s = map_append s.audit (e ∷ [])

quiet-Logs : (s x : Server) → x.audit ≡ s.audit → Logs s [] x
quiet-Logs s x h = rw (h, append-nil) refl

connected_reply-Logs :
    (p : Messages.ConnectParams) (s : Server) (o : Manager × Outcome)
    → Logs s (audited (Messages.connect p) (connected_reply s o).1) (connected_reply s o).0
unfolding connected_reply plain_entry
connected_reply-Logs p s (m, returned ref) =
    log-Logs _ (record s { manager = m; monitor = watch (get_name (m.heap ref)) ref s.monitor })
connected_reply-Logs p s (m, failed e) = log-Logs _ (record s { manager = m })
connected_reply-Logs p s (m, blocked) = quiet-Logs s (record s { manager = m }) refl

local_reply-Logs : (s : Server) (o : Manager × Outcome) → Logs s [] (local_reply s o).0
unfolding local_reply
local_reply-Logs s (m, returned ref) = quiet-Logs s (record s { manager = m }) refl
local_reply-Logs s (m, failed e) = quiet-Logs s (record s { manager = m }) refl
local_reply-Logs s (m, blocked) = quiet-Logs s (record s { manager = m }) refl

killed_reply-Logs :
    (name given : String) (s : Server) (o : Manager × Outcome)
    → Logs s (audited (Messages.kill given) (killed_reply name s o).1) (killed_reply name s o).0
unfolding killed_reply plain_entry
killed_reply-Logs name given s (m, returned ref) = log-Logs _ (record s { manager = m })
killed_reply-Logs name given s (m, failed e) = quiet-Logs s (record s { manager = m }) refl
killed_reply-Logs name given s (m, blocked) = quiet-Logs s (record s { manager = m }) refl

exec_outcome-Logs :
    (name : String) (command : Bytes) (e : Option Err) (r : Option ExecResult) (s : Server)
    → Logs s ("exec" ∷ []) (exec_outcome name command e r s).0
unfolding exec_outcome log_exec
exec_outcome-Logs name command (some e) r s = log-Logs _ s
exec_outcome-Logs name command none (some r) s = log-Logs _ s
exec_outcome-Logs name command none none s = log-Logs _ s

exec_reply-Logs :
    (name : String) (command : Bytes) (s : Server) (o : Manager × ExecReply)
    → Logs s ("exec" ∷ []) (exec_reply name command s o).0
unfolding exec_reply log_exec
exec_reply-Logs name command s (m, ran r) =
    exec_outcome-Logs name command r.err r.result (record s { manager = m })
exec_reply-Logs name command s (m, session_error t) = log-Logs _ (record s { manager = m })

rearm_found-audit : (o : Option ℕ) (s : Server) → (rearm_found o s).audit ≡ s.audit
unfolding rearm_found
rearm_found-audit none s = refl
rearm_found-audit (some ref) s = elim (Bool-cases (is_local (s.manager.heap ref))) [
  | inl e ↦ rw e refl
  | inr e ↦ rw e refl
]

rearm-audit : (b : Bool) (name : String) (s : Server) → (rearm b name s).audit ≡ s.audit
unfolding rearm
rearm-audit false name s = refl
rearm-audit true name s = rearm_found-audit (get name s.manager) s

used_reply-audit :
    (b : Bool) (name : String) (s : Server) (o : Manager × Outcome)
    → (used_reply b name s o).0.audit ≡ s.audit
unfolding used_reply
used_reply-audit b name s (m, returned ref) = rearm-audit b name (record s { manager = m })
used_reply-audit b name s (m, failed e) = refl
used_reply-audit b name s (m, blocked) = refl

added_reply-audit : (s : Server) (a : Service × Added) → (added_reply s a).0.audit ≡ s.audit
unfolding added_reply
added_reply-audit s (v, added f) = refl
added_reply-audit s (v, not_added e) = refl

add_over-audit :
    (a : AwaitResult) (session : String) (spec : Spec) (w : World) (s : Server)
    → (add_over a session spec w s).0.audit ≡ s.audit
unfolding add_over
add_over-audit (got_client c) session spec w s = added_reply-audit s _
add_over-audit AwaitResult.waiting session spec w s = refl
add_over-audit a session spec w s = refl

forward_over-audit :
    (o : Option ℕ) (p : Messages.ForwardParams) (w : World) (s : Server)
    → (forward_over o p w s).0.audit ≡ s.audit
unfolding forward_over
forward_over-audit none p w s = refl
forward_over-audit (some ref) p w s = elim (Bool-cases (is_local (s.manager.heap ref))) [
  | inl e ↦ rw e refl
  | inr e ↦ rw e (add_over-audit (await_client w.polls) _ _ w s)
]

closed_reply-audit : (s : Server) (a : Service × Closed) → (closed_reply s a).0.audit ≡ s.audit
unfolding closed_reply
closed_reply-audit s (v, Closed.closed id) = refl
closed_reply-audit s (v, r) = refl

ls_reply-Logs :
    (p : Messages.SftpParams) (o : Option (List Bytes)) (s : Server)
    → Logs s ("sftp_ls" ∷ []) (ls_reply p o s).0
unfolding ls_reply sftp_entry
ls_reply-Logs p none s = log-Logs _ s
ls_reply-Logs p (some l) s = log-Logs _ s

done_reply-Logs :
    (action : String) (p : Messages.SftpParams) (r : Reply) (b : Bool) (s : Server)
    → Logs s (action ∷ []) (done_reply action p r b s).0
unfolding done_reply sftp_entry
done_reply-Logs action p r true s = log-Logs _ s
done_reply-Logs action p r false s = log-Logs _ s

-- Of what dispatch is given, every exec, local exec, scp and sftp request adds one entry with its
-- action to the audit log, whether it fails or not, and so does a connect that does not wait; a kill
-- adds one only if it succeeds; no other request adds any, and no entry is taken out.
pub dispatch-audited :
    (q : Request) (w : World) (s : Server)
    → actions (dispatch q w s).0 ≡ actions s ++ audited q (dispatch q w s).1
unfolding dispatch handle_connect handle_local handle_kill handle_exec handle_local_exec handle_list
    handle_use handle_forward handle_forwards handle_forward_close handle_scp
dispatch-audited Messages.ping w s = quiet-Logs s s refl
dispatch-audited (Messages.connect p) w s = connected_reply-Logs p s _
dispatch-audited (Messages.local_session name) w s = local_reply-Logs s _
dispatch-audited (Messages.kill name) w s =
    killed_reply-Logs name name (record s { monitor = stop_watch name s.monitor }) _
dispatch-audited (Messages.exec p) w s = exec_reply-Logs p.name p.command s _
dispatch-audited (Messages.local_exec p) w s = exec_outcome-Logs "" p.command _ _ s
dispatch-audited Messages.list w s = quiet-Logs s s refl
dispatch-audited (Messages.use_session p) w s =
    quiet-Logs s (dispatch (Messages.use_session p) w s).0 (
      used_reply-audit (was_offline p.name s.manager) p.name s
        (Methods.use_session p.name p.password p.key_path w.dial s.manager))
dispatch-audited (Messages.forward p) w s =
    quiet-Logs s (dispatch (Messages.forward p) w s).0
      (forward_over-audit (get p.name s.manager) p w s)
dispatch-audited Messages.forwards w s = quiet-Logs s s refl
dispatch-audited (Messages.forward_close id) w s =
    quiet-Logs s (dispatch (Messages.forward_close id) w s).0
      (closed_reply-audit s (Service.close_forward id s.service))
dispatch-audited (Messages.scp p) w s = log-Logs _ s
dispatch-audited (Messages.sftp_ls p) w s = ls_reply-Logs p w.names s
dispatch-audited (Messages.sftp_mkdir p) w s = done_reply-Logs "sftp_mkdir" p _ w.sftp_done s
dispatch-audited (Messages.sftp_rm p) w s = done_reply-Logs "sftp_rm" p _ w.sftp_done s
dispatch-audited Messages.stop w s = quiet-Logs s s refl
dispatch-audited (Messages.exec_stream p) w s = quiet-Logs s s refl
dispatch-audited (Messages.local_exec_stream p) w s = quiet-Logs s s refl
