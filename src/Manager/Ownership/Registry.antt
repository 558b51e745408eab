-- ===== src/Manager/Ownership/Registry.antt =====
-- The invariant when a client is opened or closed, and when the registry changes.
use agmux.Base.{
  ℕ, String, ◌≡◌, inl, inr, sym, ◌∙◌, none, Bool, true, false, update, arith, ◌==◌, Bool-cases,
  lookup-erase, lookup-insert, lookup-nil, [], eq_iff,
}
use agmux.Session.{Session, client_of, get_name}
use agmux.Manager.{Manager, open_client, close_client, allocate, remove, set_default}
use agmux.Manager.Ownership.{IsFine, Owned}

module _ {held : ℕ → Bool} {m : Manager} (h : Owned held m) where
  pub Owned-of_same : (held' : ℕ → Bool) → ((c : ℕ) → held c ≡ held' c) → Owned held' m
  Owned-of_same held' same = record {
    in_range = h.in_range;
    owned = λ c o. elim (h.owned c o) [ inl k ↦ inl (sym (same c) ∙ k) | inr k ↦ inr k ];
    attached = λ r c k. ((h.attached r c k).0, sym (same c) ∙ (h.attached r c k).1);
    in_hand = λ c k. h.in_hand c (same c ∙ k);
    unique = h.unique;
    fine = h.fine;
    named = h.named;
    fresh = h.fresh;
  }

  -- The dialler holds the new client.
  pub open_client-Owned : Owned (update held m.next_client true) (open_client m)
  unfolding open_client
  open_client-Owned = record {
    in_range = λ c o. ground (arith, h.in_range c);
    owned = λ c o. elim (Bool-cases (m.next_client == c)) [
      | inl e ↦ inl (ground arith)
      | inr e ↦ elim (h.owned c (ground arith)) [ inl k ↦ inl (ground arith) | inr k ↦ inr k ]
    ];
    attached = λ r c k. ground (arith, h.attached r c k, h.in_range c);
    in_hand = λ c k. ground (arith, h.in_hand c);
    unique = h.unique;
    fine = h.fine;
    named = h.named;
    fresh = h.fresh;
  }

  pub close_client-Owned : (c : ℕ) → held c ≡ true → Owned (update held c false) (close_client c m)
  unfolding close_client
  close_client-Owned c mine = record {
    in_range = λ d o. ground (arith, h.in_range d);
    owned = λ d o. elim (h.owned d (ground arith)) [ inl k ↦ inl (ground arith) | inr k ↦ inr k ];
    attached = λ r d k. ground (arith, h.attached r d k);
    in_hand = λ d k. ground (arith, h.in_hand d);
    unique = h.unique;
    fine = h.fine;
    named = h.named;
    fresh = h.fresh;
  }

  pub set_default-Owned : (name : String) → Owned held (set_default name m)
  unfolding set_default
  set_default-Owned name = record {
    in_range = h.in_range;
    owned = h.owned;
    attached = h.attached;
    in_hand = h.in_hand;
    unique = h.unique;
    fine = h.fine;
    named = h.named;
    fresh = h.fresh;
  }

  pub remove-Owned : (name : String) → Owned held (remove name m)
  unfolding remove
  remove-Owned name = record {
    in_range = h.in_range;
    owned = h.owned;
    attached = h.attached;
    in_hand = h.in_hand;
    unique = h.unique;
    fine = h.fine;
    named = λ k r e. ground (arith, lookup-erase name k m.sessions, h.named k r);
    fresh = h.fresh;
  }

  pub clear-Owned : Owned held (record m { sessions = []; default_name = "" })
  clear-Owned = record {
    in_range = h.in_range;
    owned = h.owned;
    attached = h.attached;
    in_hand = h.in_hand;
    unique = h.unique;
    fine = h.fine;
    named = λ k r e. cc (lookup-nil {V = ℕ} k);
    fresh = h.fresh;
  }

  pub allocate-Owned :
      (name : String) (s : Session)
      → get_name s ≡ name
      → client_of s ≡ none
      → IsFine s
      → Owned held (allocate name s m)
  unfolding allocate
  allocate-Owned name s own empty ok = record {
    in_range = h.in_range;
    owned = λ c o. elim (h.owned c o) [
      | inl k ↦ inl k
      | inr (r, k) ↦ inr (r, ground (arith, h.fresh r))
    ];
    attached = λ r c k. ground (arith, h.attached r c);
    in_hand = h.in_hand;
    unique = λ r t c k l. ground (arith, h.unique r t c);
    fine = λ r. elim (Bool-cases (m.next_ref == r)) [ inl e ↦ rw e ok | inr e ↦ rw e (h.fine r) ];
    named = λ k r e.
        ground (arith, lookup-insert name k m.next_ref m.sessions, eq_iff name k, h.named k r);
    fresh = λ r k. ground (arith, h.fresh r);
  }
