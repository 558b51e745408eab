-- ===== src/Forward/Service.antt =====
-- internal/portforward/forwarder.go: the registry of forwarders.
use agmux.Base.{
  ℕ, suc, String, Option, none, some, Bool, str_eq, List, [], ◌∷◌, if◌then◌else◌, lookup, insert,
  erase, map,
}
use text.Mathlib.Text.{starts_with}
use agmux.Forward.{
  Forwarder, Net, ForwardError, Spec, Made, made, not_made, new_forwarder, Started, started,
  not_started, start, close, restart,
}

pub record Service : Type 0 where
  pub forwards : List (String × Forwarder)
  pub net : Net

pub data Added : Type 0 where
  added : Forwarder → Added
  not_added : ForwardError → Added

unfoldable pub register : Started → Service → Service × Added
register (started f) s = (record s { forwards = insert f.id f s.forwards }, added f)
register (not_started e f) s = (record s { forwards = erase f.id s.forwards }, not_added e)

unfoldable pub add_made : String → Bool → Made → Service → Service × Added
unfolding register start
add_made session starts (not_made e) s = (s, not_added e)
add_made session starts (made f) s =
    let g : Forwarder = record f { session = session } in
    let (n, r) = start starts g s.net in
    register r (record { forwards = insert g.id g s.forwards; net = n })

-- Add, once the session has its client.
unfoldable pub add : String → Option ℕ → Spec → Bool → Bool → Service → Service × Added
unfolding add_made new_forwarder
add session client spec listens starts s =
    let (n, r) = new_forwarder client spec listens s.net in
    add_made session starts r (record s { net = n })

-- List, without the fields that are not shown; Go's order is any.
unfoldable pub list : Service → List Forwarder
list s = map (λ (e : String × Forwarder). e.1) s.forwards

-- The ids that the prefix fits.
unfoldable pub matches : String → List (String × Forwarder) → List String
matches prefix [] = []
matches prefix (e ∷ es) =
    let rest = matches prefix es in if starts_with e.0 prefix then e.0 ∷ rest else rest

pub data Closed : Type 0 where
  closed : String → Closed
  id_required not_found : Closed
  ambiguous : ℕ → Closed

abbrev pub count : List String → ℕ
count [] = 0
count (x ∷ xs) = suc (count xs)

-- Which forward an id stands for.
unfoldable pub one_match : List String → Closed
one_match [] = not_found
one_match (id ∷ []) = closed id
one_match (id ∷ more ∷ rest) = ambiguous (count (id ∷ more ∷ rest))

unfoldable pub find_forward : String → Service → Closed
find_forward id s = elim (lookup id s.forwards) [
  | some f ↦ closed id
  | none ↦ one_match (matches id s.forwards)
]

unfoldable pub close_found : Option Forwarder → String → Service → Service
unfolding close
close_found none id s = s
close_found (some f) id s = record { forwards = erase id s.forwards; net = (close f s.net).0 }

unfoldable pub close_by : Closed → Service → Service × Closed
close_by (closed id) s = (close_found (lookup id s.forwards) id s, closed id)
close_by r s = (s, r)

-- Close of the service
unfoldable pub close_forward : String → Service → Service × Closed
close_forward id s = if str_eq id "" then (s, id_required) else close_by (find_forward id s) s

-- RestartAll: `listens` says of each forward whether its listener comes up again.
unfoldable pub restart_entries :
    String
    → Option ℕ
    → (String → Bool)
    → List (String × Forwarder)
    → Net
    → Net × List (String × Forwarder)
unfolding restart
restart_entries session client listens [] n = (n, [])
restart_entries session client listens ((id, f) ∷ es) n =
    let (n', g) = if str_eq f.session session then restart client (listens id) f n else (n, f) in
    let (n'', gs) = restart_entries session client listens es n' in (n'', (id, g) ∷ gs)

unfoldable pub restart_all : String → Option ℕ → (String → Bool) → Service → Service
unfolding restart_entries
restart_all session client listens s =
    let (n, es) = restart_entries session client listens s.forwards s.net in
    record { forwards = es; net = n }
