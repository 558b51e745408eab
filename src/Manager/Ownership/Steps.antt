-- ===== src/Manager/Ownership/Steps.antt =====
-- The invariant under each change of a session, of a client or of the registry.
use agmux.Base.{
  ℕ, String, ◌≡◌, ◌<◌, inl, inr, none, some, Bool, true, false, lookup, update, arith, ◌==◌,
  Bool-cases,
}
use agmux.Session.{Session, client_of, get_name}
use agmux.Manager.{Manager}
use agmux.Manager.Ownership.{IsFine, Owned}

-- The session `ref` becomes `s`.
abbrev pub put : ℕ → Session → Manager → Manager
put ref s m = record m { heap = update m.heap ref s }

module _ {held : ℕ → Bool} {m : Manager} (h : Owned held m) (ref : ℕ) (s : Session)
    (name : get_name s ≡ get_name (m.heap ref)) (ok : IsFine s) where
  put-IsFine : (r : ℕ) → IsFine (update m.heap ref s r)
  put-IsFine r = elim (Bool-cases (ref == r)) [ inl e ↦ rw e ok | inr e ↦ rw e (h.fine r) ]

  put-named :
      (k : String) (r : ℕ)
      → lookup k m.sessions ≡ some r
      → (get_name (update m.heap ref s r) ≡ k) × (r < m.next_ref)
  put-named k r e = ground (arith, h.named k r e)

  pub put_same-Owned : client_of s ≡ client_of (m.heap ref) → Owned held (put ref s m)
  put_same-Owned same = record {
    in_range = h.in_range;
    owned = λ c o. elim (h.owned c o) [ inl k ↦ inl k | inr (r, k) ↦ inr (r, ground arith) ];
    attached = λ r c k. h.attached r c (ground arith);
    in_hand = h.in_hand;
    unique = λ r t c k l. h.unique r t c (ground arith) (ground arith);
    fine = put-IsFine;
    named = put-named;
    fresh = λ r k. ground (arith, h.fresh r k, h.fresh ref);
  }

  -- The client of `ref` passes into the hands of a call.
  pub detach-Owned :
      {c : ℕ}
      → client_of (m.heap ref) ≡ some c
      → client_of s ≡ none
      → Owned (update held c true) (put ref s m)
  detach-Owned {c} had gone = record {
    in_range = h.in_range;
    owned = λ d o. elim (h.owned d o) [
      | inl k ↦ inl (ground arith)
      | inr (r, k) ↦ elim (Bool-cases (ref == r)) [
        | inl e ↦ inl (ground arith)
        | inr e ↦ inr (r, ground arith)
      ]
    ];
    attached = λ r d k. ground (arith, h.attached r d, h.unique r ref d);
    in_hand = λ d k. ground (arith, h.in_hand d, h.attached ref c had);
    unique = λ r t d k l. h.unique r t d (ground arith) (ground arith);
    fine = put-IsFine;
    named = put-named;
    fresh = λ r k. ground (arith, h.fresh r k);
  }

  -- A client in hand is adopted by `ref`, which has none.
  pub attach-Owned :
      {c : ℕ}
      → client_of (m.heap ref) ≡ none
      → held c ≡ true
      → client_of s ≡ some c
      → ref < m.next_ref
      → Owned (update held c false) (put ref s m)
  attach-Owned {c} empty mine now below = record {
    in_range = h.in_range;
    owned = λ d o. elim (Bool-cases (c == d)) [
      | inl e ↦ inr (ref, ground arith)
      | inr e ↦ elim (h.owned d o) [
        | inl k ↦ inl (ground arith)
        | inr (r, k) ↦ inr (r, ground arith)
      ]
    ];
    attached = λ r d k. ground (arith, h.attached r d, h.in_hand c mine);
    in_hand = λ d k. ground (arith, h.in_hand d);
    unique = λ r t d k l. ground (arith, h.unique r t d, h.attached r d, h.attached t d);
    fine = put-IsFine;
    named = put-named;
    fresh = λ r k. ground (arith, h.fresh r k);
  }
