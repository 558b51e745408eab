-- ===== src/CommandLine/Numerals.antt =====
-- Decimal numerals, and Atoi on them.
use agmux.Base.{
  ℕ, zero, suc, ◌+◌, ◌-◌, ◌*◌, ◌/◌, ◌%◌, ◌≤◌, ◌<◌, ◌≡◌, ◌≢◌, refl, ap, ◌∙◌, pos, some, false, ◌&&◌,
  ltb, leb, [], ◌∷◌, ◌++◌, if◌then◌else◌, Bytes, contains, arith, Bool-cases, inl, inr, All,
  All-append,
}
use agmux.CommandLine.{digits, unsigned, in_range, atoi, max_int}

unfoldable digits_of : ℕ → ℕ → Bytes
digits_of zero n = []
digits_of (suc fuel) n =
    let more = digits_of fuel (n / 10) in
    if ltb n 10 then (b'0' + n) ∷ [] else more ++ (b'0' + n % 10) ∷ []

-- The decimal numeral of `n`.
unfoldable pub decimal : ℕ → Bytes
unfolding digits_of
decimal n = digits_of (suc n) n

abbrev IsDigit : ℕ → Type 0
IsDigit c = (b'0' ≤ c) × (c ≤ b'9')

digits-append :
    (v m d : ℕ) (s : Bytes)
    → d < 10
    → digits v s ≡ some m
    → digits v (s ++ (b'0' + d) ∷ []) ≡ some (10 * m + d)
unfolding digits
digits-append v m d [] h e = ground arith
digits-append v m d (c ∷ s) h e = elim (Bool-cases (leb b'0' c && leb c b'9')) [
  | inl q ↦ rw q (digits-append (10 * v + (c - b'0')) m d s h (rw q at e))
  | inr q ↦ absurd (ground (arith, rw q at e))
]

digits-digits_of : (fuel n : ℕ) → n < fuel → digits 0 (digits_of fuel n) ≡ some n
unfolding digits_of
digits-digits_of zero n h = absurd (omega arith)
digits-digits_of (suc fuel) n h = elim (Bool-cases (ltb n 10)) [
  | inl q ↦ rw q (unfold digits in ground arith)
  | inr q ↦
      let rest =
        digits-append 0 (n / 10) (n % 10) (digits_of fuel (n / 10)) (omega arith)
          (digits-digits_of fuel (n / 10) (ground arith)) in
      rw q (rest ∙ ap some (omega arith))
]

digits_of-IsDigit : (fuel n : ℕ) → All IsDigit (digits_of fuel n)
unfolding digits_of
digits_of-IsDigit zero n = tt
digits_of-IsDigit (suc fuel) n = elim (Bool-cases (ltb n 10)) [
  | inl q ↦ rw q ((omega arith, ground arith), tt)
  | inr q ↦ rw q (
      All-append IsDigit (digits_of fuel (n / 10)) _ (digits_of-IsDigit fuel (n / 10))
        ((omega arith, omega arith), tt))
]

contains-All : (c : ℕ) (s : Bytes) → All IsDigit s → b'9' < c → contains s c ≡ false
unfolding contains
contains-All c [] hs h = refl
contains-All c (x ∷ s) (hx, hs) h = ground (arith, contains-All c s hs h)

pub decimal-contains : (n : ℕ) → contains (decimal n) b':' ≡ false
unfolding decimal
decimal-contains n =
    contains-All b':' (digits_of (suc n) n) (digits_of-IsDigit (suc n) n) (omega arith)

atoi-digits :
    (n : ℕ) (s : Bytes)
    → All IsDigit s
    → s ≢ []
    → digits 0 s ≡ some n
    → n ≤ max_int
    → atoi s ≡ some (pos n)
unfolding atoi unsigned in_range
atoi-digits n [] hs full e h = absurd (full refl)
atoi-digits n (c ∷ s) (hc, hs) full e h = rw e (ground arith)

not_empty : (s : Bytes) (c : ℕ) → s ++ c ∷ [] ≢ []
not_empty [] c h = cc h
not_empty (x ∷ s) c h = cc h

digits_of-full : (fuel n : ℕ) → digits_of (suc fuel) n ≢ []
unfolding digits_of
digits_of-full fuel n h = elim (Bool-cases (ltb n 10)) [
  | inl q ↦ cc (rw q at h)
  | inr q ↦ not_empty (digits_of fuel (n / 10)) (b'0' + n % 10) (rw q at h)
]

pub atoi-decimal : (n : ℕ) → n ≤ max_int → atoi (decimal n) ≡ some (pos n)
unfolding decimal
atoi-decimal n h =
    atoi-digits n (digits_of (suc n) n) (digits_of-IsDigit (suc n) n) (digits_of-full n n)
      (digits-digits_of (suc n) n (omega arith)) h
