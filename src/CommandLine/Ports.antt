-- ===== src/CommandLine/Ports.antt =====
-- What parseForwardSpec reads.
use agmux.Base.{
  ℕ, ◌≤◌, ◌≡◌, ◌↔◌, refl, ℤ, pos, negsuc, Option, none, some, false, ◌∷◌, ◌++◌, Bytes, contains,
  arith, Bool-cases, inl, inr,
}
use agmux.CommandLine.{split_first, atoi, port, both, ports_of, parse_forward_spec}
use agmux.CommandLine.Remotes.{split_first-append, split_first_sound}
use agmux.CommandLine.Numerals.{decimal, decimal-contains, atoi-decimal}

abbrev pub IsPort : ℕ → Type 0
IsPort n = (1 ≤ n) × (n ≤ 65535)

port_iff : (z : Option ℤ) (n : ℕ) → (port z ≡ some n) ↔ ((z ≡ some (pos n)) × IsPort n)
unfolding port
port_iff none n = (λ h. cc h, λ h. cc (h.0))
port_iff (some (negsuc k)) n = (λ h. cc h, λ h. cc (h.0))
port_iff (some (pos k)) n = (λ h. ground arith, λ (h, ok). let (low, high) = ok in ground arith)

both_iff : (x y : Option ℕ) (a b : ℕ) → (both x y ≡ some (a, b)) ↔ ((x ≡ some a) × (y ≡ some b))
both_iff none y a b = (λ h. cc h, λ h. cc (h.0))
both_iff (some x) none a b = (λ h. cc h, λ h. cc (h.1))
both_iff (some x) (some y) a b = (λ h. (cc h, cc h), λ (h, k). cc (h, k))

-- Two numerals around the only colon, each a port that Atoi reads.
abbrev pub Ports : Bytes → ℕ → ℕ → Type 0
Ports spec a b =
    (x : Bytes) × (y : Bytes) × (spec ≡ x ++ b':' ∷ y)
    × (contains x b':' ≡ false)
    × (contains y b':' ≡ false)
    × (atoi x ≡ some (pos a))
    × (atoi y ≡ some (pos b))
    × IsPort a
    × IsPort b

ports_of-Ports :
    (spec : Bytes) (a b : ℕ) (o : Option (Bytes × Bytes))
    → split_first b':' spec ≡ o
    → ports_of o ≡ some (a, b)
    → Ports spec a b
unfolding ports_of
ports_of-Ports spec a b none e h = cc
ports_of-Ports spec a b (some (x, y)) e h = elim (Bool-cases (contains y b':')) [
  | inl q ↦ absurd (ground (arith, rw q at h))
  | inr q ↦
      (let (parts, free) = split_first_sound b':' spec x y e in
        let (p, r) = (both_iff (port (atoi x)) (port (atoi y)) a b).0 (rw q at h) in
        let (ea, oka) = (port_iff (atoi x) a).0 p in
        let (eb, okb) = (port_iff (atoi y) b).0 r in (x, y, parts, free, q, ea, eb, oka, okb))
]

Ports-parse_forward_spec :
    (spec : Bytes) (a b : ℕ) → Ports spec a b → parse_forward_spec spec ≡ some (a, b)
unfolding parse_forward_spec ports_of
Ports-parse_forward_spec spec a b (x, y, e, fx, fy, ea, eb, oka, okb) =
    rw (e, split_first-append b':' x y fx, fy)
      ((both_iff (port (atoi x)) (port (atoi y)) a b).1
        ((port_iff (atoi x) a).1 (ea, oka), (port_iff (atoi y) b).1 (eb, okb)))

-- A forward spec is read as two ports exactly if it is two texts around the only colon that Atoi
-- reads as these ports, each from 1 to 65535.
pub parse_forward_spec-Ports :
    (spec : Bytes) (a b : ℕ) → (parse_forward_spec spec ≡ some (a, b)) ↔ Ports spec a b
unfolding parse_forward_spec
parse_forward_spec-Ports spec a b =
    (ports_of-Ports spec a b (split_first b':' spec) refl, Ports-parse_forward_spec spec a b)

-- The decimal numerals of two ports around a colon are read back as these ports.
parse_forward_spec-decimal :
    (a b : ℕ)
    → IsPort a
    → IsPort b
    → parse_forward_spec (decimal a ++ b':' ∷ decimal b) ≡ some (a, b)
parse_forward_spec-decimal a b oka okb =
    Ports-parse_forward_spec (decimal a ++ b':' ∷ decimal b) a b (
      decimal a,
      decimal b,
      refl,
      decimal-contains a,
      decimal-contains b,
      atoi-decimal a (omega arith),
      atoi-decimal b (omega arith),
      oka,
      okb,
    )
