-- ===== src/Server/Lifecycle/Shutdown/Orderly.antt =====
-- The invariant of the daemon's connections and handlers.
use agmux.Base.{ℕ, ◌≡◌, ◌<◌, Bool, true, false, ◌&&◌, ◌||◌, ◌==◌, [], contains}
use agmux.Server.Lifecycle.{
  Accept, accepting, ended, accepted, checked, Stopping, idle, shut, marked, unlistened, draining,
  finished, Life,
}

-- Stop has marked the server under acceptMu.
abbrev pub has_marked : Stopping → Bool
has_marked idle = false
has_marked shut = false
has_marked marked = true
has_marked unlistened = true
has_marked draining = true
has_marked finished = true

abbrev pub IsQuiet : Life → Type 0
IsQuiet s = (s.reading ≡ []) × (s.busy ≡ []) × (s.leaving ≡ [])

-- A connection that the accept loop has in its hand.
abbrev pub in_hand : Accept → ℕ → Bool
in_hand accepting c = false
in_hand ended c = false
in_hand (accepted d) c = c == d
in_hand (checked d) c = c == d

-- A connection that is not closed is in a hand: the accept loop's, or that of a handler, and those of
-- the handlers can be closed by Stop.
pub record IsOrderly (s : Life) : Type 0 where
  pub marked_ok : has_marked s.stop ≡ true → s.stopping ≡ true
  pub quiet : s.stop ≡ finished → IsQuiet s
  pub tracked :
      (c : ℕ) → (contains s.reading c || contains s.busy c) ≡ true → contains s.active c ≡ true
  pub single : (c : ℕ) → (contains s.reading c && contains s.busy c) ≡ false
  pub new_in_hand :
      (c : ℕ) → in_hand s.accept c ≡ true → (contains s.reading c || contains s.busy c) ≡ false
  pub known :
      (c : ℕ)
      → (in_hand s.accept c || contains s.reading c || contains s.busy c) ≡ true
      → c < s.next_conn
  pub accounted :
      (c : ℕ)
      → contains s.live c ≡ true
      → (in_hand s.accept c || contains s.reading c || contains s.busy c) ≡ true

-- What the invariant says of one connection.
pub facts_of :
    (s : Life)
    → IsOrderly s
    → (d : ℕ)
    → ((contains s.reading d || contains s.busy d) ≡ true → contains s.active d ≡ true)
      × ((contains s.reading d && contains s.busy d) ≡ false)
      × (in_hand s.accept d ≡ true → (contains s.reading d || contains s.busy d) ≡ false)
      × ((in_hand s.accept d || contains s.reading d || contains s.busy d) ≡ true → d < s.next_conn)
      × (contains s.live d ≡ true
          → (in_hand s.accept d || contains s.reading d || contains s.busy d) ≡ true)
facts_of s ok d = (ok.tracked d, ok.single d, ok.new_in_hand d, ok.known d, ok.accounted d)
