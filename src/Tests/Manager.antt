-- ===== src/Tests/Manager.antt =====
-- The session manager on a short history.
use agmux.Base.{ℤ, [], ◌∷◌, List}
use agmux.Manager.{Request, accepted, refused}
use agmux.Manager.Ownership.History.{Call, connects, kills, uses}

abbrev prod : Request
prod = record {
  name = "";
  user = "ann";
  host = "web";
  port = ℤ.pos 22;
  password = "";
  key_path = "";
}

abbrev history : List Call
history =
    connects prod (ℤ.pos 1) [] accepted
    ∷ kills ""
    ∷ connects prod (ℤ.pos 2) [] refused
    ∷ connects prod (ℤ.pos 3) [] accepted
    ∷ uses "ann@web" "" "" accepted
    ∷ []
