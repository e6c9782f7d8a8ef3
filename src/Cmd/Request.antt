-- ===== src/Cmd/Request.antt =====
-- cmd/rpc.go and the RPC methods of the commands: requests and replies as protobuf messages, and
-- commands that are built from requests. A pointer that may be nil is an `Option`.
use bmagent.Base.{
  ℕ, Bool, true, false, not, Option, none, some, List, ◌==◌, if◌then◌else◌, Text, codes,
}
use bmagent.Cmd.Pattern.{invalid_rpc_request, unknown_command, message, Outcome, ok, fail, panic}
use bmagent.Cmd.Command.{
  PowData, Command, help_command, new_address_command, list_addresses_command, first_unknown,
}

pub record HelpRequest : Type 0 where
  pub version : Option ℕ
  pub requests : List Text

pub record NewAddressRequest : Type 0 where
  pub version : Option ℕ
  pub address_version : Option ℕ
  pub stream : Option ℕ
  pub label : Option Text
  pub ack : Option Bool
  pub nonce_trials_per_byte : Option ℕ
  pub extra_bytes : Option ℕ

pub data Request : Type 0 where
  help_request : Option HelpRequest → Request
  new_address_request : Option NewAddressRequest → Request
  list_addresses_request : Option ℕ → Request

-- `BMRPCRequest`: the version and the one-of field.
pub record RpcRequest : Type 0 where
  pub version : Option ℕ
  pub request : Option Request

-- `x == nil || *x != n`
abbrev pub differs : Option ℕ → ℕ → Bool
differs none n = true
differs (some m) n = not (m == n)

-- `x != nil && *x != n`
abbrev pub clashes : Option ℕ → ℕ → Bool
clashes none n = false
clashes (some m) n = not (m == n)

unfoldable pub build_help_command : Option HelpRequest → Outcome Command
unfolding first_unknown
build_help_command none = fail invalid_rpc_request
build_help_command (some r) =
    if differs r.version 1 then fail invalid_rpc_request else elim (first_unknown r.requests) [
      | some req ↦ fail (unknown_command req)
      | none ↦ ok (help_command r.requests)
    ]

-- The `pow.Data` of the request: with both numbers an error, and with the first alone the second
-- is read through a nil pointer.
unfoldable pub build_pow : Option ℕ → Option ℕ → Outcome PowData
build_pow none extra = ok (record { nonce_trials_per_byte = 0; extra_bytes = 0 })
build_pow (some n) (some e) =
    fail (message (codes "Must provide both nonce trials per byte and extra bytes."))
build_pow (some n) none = panic

unfoldable pub build_new_address_command : NewAddressRequest → Outcome Command
unfolding build_pow
build_new_address_command r =
    if clashes r.address_version 4
    then fail (message (codes "Address version must be 4"))
    else if clashes r.stream 1
    then fail (message (codes "Stream must be 1"))
    else let ack : Bool = elim r.ack [ none ↦ true | some a ↦ a ] in
      elim (build_pow r.nonce_trials_per_byte r.extra_bytes) [
        | ok p ↦ ok (new_address_command ack r.label (some p) 4 1)
        | fail e ↦ fail e
        | panic ↦ panic
      ]

unfoldable pub build_request : Request → Outcome Command
unfolding build_help_command build_new_address_command
build_request (help_request r) = build_help_command r
build_request (new_address_request none) = panic
build_request (new_address_request (some r)) = build_new_address_command r
build_request (list_addresses_request version) = ok list_addresses_command

-- `BuildCommand`, of a request that may be nil.
unfoldable pub build_command : Option RpcRequest → Outcome Command
unfolding build_request
build_command none = fail invalid_rpc_request
build_command (some r) = elim r.request [
  | none ↦ fail invalid_rpc_request
  | some request ↦ if differs r.version 1 then fail invalid_rpc_request else build_request request
]

-- The method `RPC` of a command.
unfoldable pub request_of : Command → Request
request_of (help_command commands) =
    help_request (some (record { version = some 1; requests = commands }))
request_of (new_address_command ack label pow version stream) = new_address_request (
    some (record {
      version = some 1;
      address_version = none;
      stream = none;
      label = label;
      ack = none;
      nonce_trials_per_byte = none;
      extra_bytes = none;
    }))
request_of list_addresses_command = list_addresses_request (some 1)

unfoldable pub rpc_request : Command → RpcRequest
unfolding request_of
rpc_request command = record { version = some 1; request = some (request_of command) }
