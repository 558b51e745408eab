-- ===== src/Ssh/HostKeys.antt =====
-- Trust on first use.
use agmux.Base.{◌≡◌, refl, Bool, true, false, ◌&&◌, List, [], ◌∷◌, ◌++◌, if◌then◌else◌, Bytes}
use agmux.Ssh.{
  KnownHosts, Verdict, known, unknown, mismatch, other_error, on_verdict, check_host_key,
}

-- What is accepted, and what becomes of the file.
abbrev pub Decides :
    KnownHosts → Bool → Bool → List Bytes → Bytes → Bytes → Verdict → List Bytes × Bool → Type 0
Decides k trusts writes file host key unknown r =
    (r.1 ≡ (trusts && writes)) × (r.0 ≡ (if r.1 then file ++ k.line host key ∷ [] else file))
Decides k trusts writes file host key known r = r ≡ (file, true)
Decides k trusts writes file host key v r = r ≡ (file, false)

on_verdict_again :
    (k : KnownHosts) (file : List Bytes) (host key : Bytes) (v : Verdict)
    → k.verdict file host key ≡ v
    → k.verdict (file ++ k.line host key ∷ []) host key ≡ known
    → (trusts writes : Bool) → (on_verdict k trusts writes file host key v).1 ≡ true
    → k.verdict (on_verdict k trusts writes file host key v).0 host key ≡ known
unfolding on_verdict
on_verdict_again k file host key known e learns trusts writes h = e
on_verdict_again k file host key unknown e learns true true h = learns
on_verdict_again k file host key unknown e learns true false h = cc h
on_verdict_again k file host key unknown e learns false writes h = cc h
on_verdict_again k file host key mismatch e learns trusts writes h = cc h
on_verdict_again k file host key other_error e learns trusts writes h = cc h

-- A key that was accepted for a host is accepted again, also when new keys are refused, and leaves
-- the known hosts as they are, if the line that is appended for it makes it known.
check_host_key_again :
    (k : KnownHosts) (file : List Bytes) (host key : Bytes) (trusts writes trusts' writes' : Bool)
    → k.verdict (file ++ k.line host key ∷ []) host key ≡ known
    → (check_host_key k trusts writes file host key).1 ≡ true
    → check_host_key k trusts' writes' (check_host_key k trusts writes file host key).0 host key
      ≡ ((check_host_key k trusts writes file host key).0, true)
unfolding check_host_key
check_host_key_again k file host key trusts writes trusts' writes' learns h =
    rw (on_verdict_again k file host key (k.verdict file host key) refl learns trusts writes h)
      (unfold on_verdict in refl)
