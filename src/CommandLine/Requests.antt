-- ===== src/CommandLine/Requests.antt =====
-- cmd/gssh/commands.go: handleForward, handleSCP and handleSFTP up to the request. The options are
-- parsed: package flag.
use agmux.Base.{
  ℕ, pos, String, ◌≡◌, ◌⊎◌, Option, none, some, Bool, true, false, not, ◌==◌, ◌&&◌, ◌||◌, str_eq,
  [], ◌∷◌, if◌then◌else◌, Bytes,
}
use agmux.Server.Messages.{ForwardParams}
use agmux.CommandLine.{Remote, split_remote_spec, parse_forward_spec}

pub record ForwardOptions : Type 0 where
  pub name : String
  pub local_spec : Bytes
  pub remote_spec : Bytes
  pub bind_addr : String
  pub public_bind : Bool

pub data UsageError : Type 0 where
  both_specs no_spec bad_spec only_with_remote public_and_bind : UsageError
  one_side_remote empty_remote_path path_required unknown_command : UsageError
  destination_required no_current_user host_empty name_required command_required : UsageError
  id_required two_paths_required subcommand_required : UsageError

pub data ForwardCommand : Type 0 where
  forward_request : ForwardParams → ForwardCommand
  forward_usage : UsageError → ForwardCommand

unfoldable pub resolved_bind : ForwardOptions → String
resolved_bind o =
    if o.public_bind then "0.0.0.0" else if str_eq o.bind_addr "" then "127.0.0.1" else o.bind_addr

unfoldable pub local_forward : ForwardOptions → Option (ℕ × ℕ) → ForwardCommand
local_forward o none = forward_usage bad_spec
local_forward o (some (first, second)) =
    if o.public_bind || not (str_eq o.bind_addr "")
    then forward_usage only_with_remote
    else forward_request (record {
      name = o.name;
      forward_type = "local";
      local_port = pos first;
      remote_port = pos second;
      bind_addr = "";
    })

-- ssh -R order: remotePort:localPort
unfoldable pub remote_forward : ForwardOptions → Option (ℕ × ℕ) → ForwardCommand
unfolding resolved_bind
remote_forward o none = forward_usage bad_spec
remote_forward o (some (first, second)) =
    if o.public_bind && not (str_eq o.bind_addr "")
    then forward_usage public_and_bind
    else forward_request (record {
      name = o.name;
      forward_type = "remote";
      local_port = pos second;
      remote_port = pos first;
      bind_addr = resolved_bind o;
    })

-- handleForward
unfoldable pub forward_command : ForwardOptions → Bytes → Bytes → ForwardCommand
unfolding local_forward remote_forward
forward_command o [] [] = forward_usage no_spec
forward_command o (c ∷ local_spec) (d ∷ remote_spec) = forward_usage both_specs
forward_command o (c ∷ local_spec) [] = local_forward o (parse_forward_spec (c ∷ local_spec))
forward_command o [] (d ∷ remote_spec) = remote_forward o (parse_forward_spec (d ∷ remote_spec))

unfoldable pub handle_forward : ForwardOptions → ForwardCommand
unfolding forward_command
handle_forward o = forward_command o o.local_spec o.remote_spec

-- protocol.SCPParams, as handleSCP fills it.
pub record Copy : Type 0 where
  pub session : Bytes
  pub source : Bytes
  pub dest : Bytes
  pub is_upload : Bool

pub data CopyCommand : Type 0 where
  copy_request : Copy → CopyCommand
  copy_usage : UsageError → CopyCommand

abbrev is_home : Bytes → Bool
is_home [] = false
is_home (c ∷ []) = c == b'.'
is_home (c ∷ d ∷ s) = false

unfoldable pub copy_of : Bytes → Bytes → Option Remote → Option Remote → CopyCommand
copy_of source dest none none = copy_usage one_side_remote
copy_of source dest (some r) (some r') = copy_usage one_side_remote
copy_of source dest (some r) none =
    if is_home r.path
    then copy_usage empty_remote_path
    else copy_request
        (record { session = r.session; source = r.path; dest = dest; is_upload = false })
copy_of source dest none (some r) =
    copy_request (record { session = r.session; source = source; dest = r.path; is_upload = true })

-- handleSCP
unfoldable pub handle_copy : Bytes → Bytes → CopyCommand
unfolding copy_of
handle_copy source dest = copy_of source dest (split_remote_spec source) (split_remote_spec dest)

abbrev pub remote : Bytes → Bytes → Remote
remote session path = record { session = session; path = path }

-- What a copy asks for: one of the two words names a session, and it is the destination in an upload.
abbrev pub Copies : Bytes → Bytes → Copy → Type 0
Copies source dest c =
    ((c.is_upload ≡ true)
      × (split_remote_spec source ≡ none)
      × (c.source ≡ source)
      × (split_remote_spec dest ≡ some (remote c.session c.dest)))
    ⊎ ((c.is_upload ≡ false)
        × (split_remote_spec dest ≡ none)
        × (c.dest ≡ dest)
        × (split_remote_spec source ≡ some (remote c.session c.source))
        × (is_home c.source ≡ false))
