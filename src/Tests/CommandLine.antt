-- ===== src/Tests/CommandLine.antt =====
-- Destinations, specs and copies at concrete words.
use agmux.Base.{◌≡◌, ◌↔◌, ◌∷◌, ◌++◌, some, none, false, codes}
use agmux.CommandLine.{
  parse_destination, destination, Remote, split_remote_spec, path_or_home, parse_forward_spec,
}
use agmux.CommandLine.Destinations.{Says, parse_destination-Says}
use agmux.CommandLine.Remotes.{IsPrefix, split_remote_spec-IsPrefix}
use agmux.CommandLine.Ports.{Ports, parse_forward_spec-Ports}
use agmux.CommandLine.Requests.{Copy}

parse_destination-Says_example :
    (parse_destination none (codes "ann@corp@web") ≡ destination (codes "ann@corp") (codes "web"))
    ↔ Says none (codes "ann@corp@web") (codes "ann@corp") (codes "web")
parse_destination-Says_example =
    parse_destination-Says none (codes "ann@corp@web") (codes "ann@corp") (codes "web")

abbrev home_of_prod : Remote
home_of_prod = record { session = codes "prod"; path = codes "." }

split_remote_spec-IsPrefix_example : (split_remote_spec (codes "prod:") ≡ some home_of_prod) ↔ (
    (path : _) × (codes "prod:" ≡ codes "prod" ++ b':' ∷ path)
    × IsPrefix (codes "prod") path
    × (codes "." ≡ path_or_home path))
split_remote_spec-IsPrefix_example = split_remote_spec-IsPrefix (codes "prod:") home_of_prod

parse_forward_spec-Ports_example :
    (parse_forward_spec (codes "8080:80") ≡ some (8080, 80)) ↔ Ports (codes "8080:80") 8080 80
parse_forward_spec-Ports_example = parse_forward_spec-Ports (codes "8080:80") 8080 80

abbrev download : Copy
download = record {
  session = codes "prod";
  source = codes "/var/log/a";
  dest = codes "./a";
  is_upload = false;
}
