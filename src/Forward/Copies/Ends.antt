-- ===== src/Forward/Copies/Ends.antt =====
-- When a forwarded connection comes to its end.
use agmux.Base.{
  ℕ, ◌≡◌, refl, Bool, true, false, not, ◌&&◌, ◌||◌, Option, none, some, inl, inr, Bool-cases, arith,
}
use agmux.Forward.Copies.{
  Side, local, remote, ConnPair, new_copies, refused, serve_conn, end_out, end_back, end_both,
  close_conn, end_local, end_remote, out_over, back_over, Own, ends_out, ends_back, ends_both, Step,
  own, local_ends, remote_ends, out_fails, back_fails, closes, Reach, here, later, Run, rests, goes,
}

-- What both copies need: a local forward needs its local side to be over, a remote one both sides.
abbrev pub is_over : Side → ConnPair → Bool
is_over local s = not s.out || out_over s
is_over remote s = (not s.out || out_over s) && (not s.back || back_over s)

abbrev pub CanEnd : Side → ConnPair → Type 0
CanEnd k s = (t : ConnPair) × Run k s t × (t.returned ≡ true)

-- Whether a copy that the other has outlived finds its connection closed.
abbrev closes_both : Side → Bool
closes_both local = true
closes_both remote = false

record IsCoupled (k : Side) (s : ConnPair) : Type 0 where
  out_ended : s.returned ≡ true → s.out ≡ false
  back_ended : s.returned ≡ true → s.back ≡ false
  closed : closes_both k ≡ true → s.out ≡ false → s.remote_conn ≡ false

end_out-IsCoupled : (k : Side) (s : ConnPair) → IsCoupled k s → IsCoupled k (end_out k s)
unfolding end_out
end_out-IsCoupled local s ok = record {
  out_ended = λ h. refl;
  back_ended = ok.back_ended;
  closed = λ l h. refl;
}
end_out-IsCoupled remote s ok = record {
  out_ended = λ h. refl;
  back_ended = ok.back_ended;
  closed = λ l h. cc l;
}

end_back-IsCoupled : (k : Side) (s : ConnPair) → IsCoupled k s → IsCoupled k (end_back s)
unfolding end_back
end_back-IsCoupled k s ok = record {
  out_ended = ok.out_ended;
  back_ended = λ h. refl;
  closed = ok.closed;
}

Own-IsCoupled : {k : Side} {s t : ConnPair} → Own k s t → IsCoupled k s → IsCoupled k t
unfolding end_both
Own-IsCoupled {k} {s} (ends_out o h) ok = end_out-IsCoupled k s ok
Own-IsCoupled {k} {s} (ends_back b h) ok = end_back-IsCoupled k s ok
Own-IsCoupled (ends_both b o) ok = record {
  out_ended = λ h. o;
  back_ended = λ h. b;
  closed = λ l h. refl;
}

Step-IsCoupled : {k : Side} {s t : ConnPair} → Step k s t → IsCoupled k s → IsCoupled k t
unfolding end_local end_remote close_conn
Step-IsCoupled (own st) ok = Own-IsCoupled st ok
Step-IsCoupled local_ends ok = record {
  out_ended = ok.out_ended;
  back_ended = ok.back_ended;
  closed = ok.closed;
}
Step-IsCoupled remote_ends ok = record {
  out_ended = ok.out_ended;
  back_ended = ok.back_ended;
  closed = ok.closed;
}
Step-IsCoupled {k} {s} (out_fails o) ok = end_out-IsCoupled k s ok
Step-IsCoupled {k} {s} (back_fails b) ok = end_back-IsCoupled k s ok
Step-IsCoupled closes ok = record {
  out_ended = ok.out_ended;
  back_ended = ok.back_ended;
  closed = ok.closed;
}

new_copies-IsCoupled : (k : Side) → IsCoupled k new_copies
unfolding new_copies
new_copies-IsCoupled k = record {
  out_ended = λ h. cc h;
  back_ended = λ h. cc h;
  closed = λ l h. cc h;
}

refused-IsCoupled : (k : Side) → IsCoupled k refused
unfolding refused
refused-IsCoupled k = record { out_ended = λ h. refl; back_ended = λ h. refl; closed = λ l h. refl }

serve_conn-IsCoupled :
    (k : Side) (client : Option ℕ) (dials : Bool) → IsCoupled k (serve_conn k client dials)
unfolding serve_conn
serve_conn-IsCoupled local none dials = refused-IsCoupled local
serve_conn-IsCoupled local (some c) true = new_copies-IsCoupled local
serve_conn-IsCoupled local (some c) false = refused-IsCoupled local
serve_conn-IsCoupled remote client true = new_copies-IsCoupled remote
serve_conn-IsCoupled remote client false = refused-IsCoupled remote

Reach-IsCoupled : {k : Side} {s t : ConnPair} → Reach k s t → IsCoupled k s → IsCoupled k t
Reach-IsCoupled here ok = ok
Reach-IsCoupled (later r st) ok = Step-IsCoupled st (Reach-IsCoupled r ok)

-- Nothing of its own brings a connection closer to its end than it was.
Own-is_over : (k : Side) {s t : ConnPair} → Own k s t → is_over k t ≡ true → is_over k s ≡ true
unfolding end_out end_back end_both out_over back_over
Own-is_over local (ends_out o h) e = ground (arith, o, h, e)
Own-is_over remote (ends_out o h) e = ground (arith, o, h, e)
Own-is_over local (ends_back b h) e = ground (arith, b, h, e)
Own-is_over remote (ends_back b h) e = ground (arith, b, h, e)
Own-is_over local (ends_both b o) e = ground (arith, b, o)
Own-is_over remote (ends_both b o) e = ground (arith, b, o)

returned-is_over :
    (k : Side) (s : ConnPair) → IsCoupled k s → s.returned ≡ true → is_over k s ≡ true
returned-is_over local s ok e = ground (arith, ok.out_ended e)
returned-is_over remote s ok e = ground (arith, ok.out_ended e, ok.back_ended e)

Run-is_over :
    {k : Side} {s t : ConnPair} → Run k s t → IsCoupled k s → t.returned ≡ true → is_over k s ≡ true
Run-is_over {k} {s} rests ok e = returned-is_over k s ok e
Run-is_over {k} (goes st run) ok e = Own-is_over k st (Run-is_over run (Own-IsCoupled st ok) e)

go_on : {k : Side} {s t : ConnPair} → Own k s t → CanEnd k t → CanEnd k s
go_on st (u, run, e) = (u, goes st run, e)

from_ended : (k : Side) (s : ConnPair) → s.back ≡ false → s.out ≡ false → CanEnd k s
from_ended k s b o = go_on (ends_both b o) (end_both s, rests, unfold end_both in refl)

from_back :
    (k : Side) (s : ConnPair) → s.out ≡ false → (not s.back || back_over s) ≡ true → CanEnd k s
from_back k s o h = elim (Bool-cases s.back) [
  | inl b ↦
      go_on (ends_back b (ground (arith, h, b)))
        (from_ended k (end_back s) (unfold end_back in refl) (unfold end_back in o))
  | inr b ↦ from_ended k s b o
]

from_over : (k : Side) (s : ConnPair) → IsCoupled k s → is_over k s ≡ true → CanEnd k s
unfolding end_out back_over
from_over local s ok h = elim (Bool-cases s.out) [
  | inl o ↦
      go_on (ends_out o (ground (arith, h, o)))
        (from_back local (end_out local s) refl (ground arith))
  | inr o ↦ from_back local s o (ground (arith, ok.closed refl o))
]
from_over remote s ok h = elim (Bool-cases s.out) [
  | inl o ↦
      go_on (ends_out o (ground (arith, h, o)))
        (from_back remote (end_out remote s) refl (ground (arith, h)))
  | inr o ↦ from_back remote s o (ground (arith, h))
]

-- A forwarded connection can come to its end without anything more from its peers exactly if, in a
-- local forward, its local side is over, and in a remote forward, both sides are: a side is over if
-- its copy has ended, its peer has, or its connection is closed.
pub Reach-CanEnd :
    (k : Side) (client : Option ℕ) (dials : Bool) (s : ConnPair)
    → Reach k (serve_conn k client dials) s
    → (CanEnd k s → is_over k s ≡ true) × (is_over k s ≡ true → CanEnd k s)
Reach-CanEnd k client dials s r =
    let ok = Reach-IsCoupled r (serve_conn-IsCoupled k client dials) in
    (λ (t, run, e). Run-is_over run ok e, from_over k s ok)
