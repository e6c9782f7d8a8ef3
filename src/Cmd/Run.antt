-- ===== src/Cmd/Run.antt =====
-- cmd/user.go, cmd/email.go and the rest of cmd/rpc.go: how a command is executed, and how the
-- answer is returned by email or by rpc.
use bmagent.Base.{
  ℕ, Bool, true, false, not, Option, none, some, List, [], ◌∷◌, ◌++◌, map, if◌then◌else◌, Text,
  codes, join,
}
use bmagent.Cmd.Pattern.{Error, ok, fail, panic}
use bmagent.Cmd.Command.{
  PowData, Command, help_command, new_address_command, list_addresses_command, documented_commands,
}
use bmagent.Cmd.Table.{read_command}
use bmagent.Cmd.Request.{RpcRequest, build_command}

-- `PublicID`, with what the package reads of the `identity.Public` in it.
pub record PublicId : Type 0 where
  pub address : Text
  pub behavior : ℕ
  pub pow : PowData
  pub label : Text

-- The interface `User`, over the state of the user. `new_address` returns the new state.
pub record User : Type 1 where
  pub State : Type 0
  pub new_address : Text → Bool → State → State × PublicId
  pub list_addresses : State → List PublicId

pub data Response : Type 0 where
  help_response : List Text → Bool → Response
  new_address_response : PublicId → Response
  list_addresses_response : List PublicId → Response
  error_response : Error → Response

-- `BitmessageIdentity`, as `PublicToRPC` fills it: every field is given.
pub record BitmessageIdentity : Type 0 where
  pub version : ℕ
  pub address : Text
  pub behavior : ℕ
  pub nonce_trials_per_byte : ℕ
  pub extra_bytes : ℕ
  pub label : Text

pub data Reply : Type 0 where
  help_reply : List Text → Reply
  new_address_reply : BitmessageIdentity → Reply
  list_addresses_reply : List BitmessageIdentity → Reply
  error_reply : Error → Reply

-- `BMRPCReply`
pub record RpcReply : Type 0 where
  pub version : ℕ
  pub reply : Reply

unfoldable pub public_to_rpc : PublicId → BitmessageIdentity
public_to_rpc ip = record {
  version = 1;
  address = ip.address;
  behavior = ip.behavior;
  nonce_trials_per_byte = ip.pow.nonce_trials_per_byte;
  extra_bytes = ip.pow.extra_bytes;
  label = ip.label;
}

-- The method `RPC` of a response, nil for an error. The instructions of the help reply are the
-- names of the commands: the messages that the source writes for them are not put into the reply.
unfoldable pub reply_of : Response → Option RpcReply
unfolding public_to_rpc
reply_of (help_response commands long) = some (record { version = 1; reply = help_reply commands })
reply_of (new_address_response address) =
    some (record { version = 1; reply = new_address_reply (public_to_rpc address) })
reply_of (list_addresses_response addresses) =
    some (record { version = 1; reply = list_addresses_reply (map public_to_rpc addresses) })
reply_of (error_response e) = none

-- What an rpc call returns: a reply that may be nil, an error, or a panic.
pub data Called : Type 0 where
  replied : Option RpcReply → Called
  refused : Error → Called
  server_stopped : Called
  panicked : Called

-- `email.Bmail`, as `EmailCommand` fills it.
pub record Answer : Type 0 where
  pub from : Text
  pub to : Text
  pub subject : Text
  pub body : Response

unfoldable pub subject_re : Text → List Text → Text
unfolding join
subject_re cmd p = codes "Re: " ++ cmd ++ codes " " ++ join (codes " ") p

module _ (U : User) where
  open U use {State, new_address, list_addresses}

  -- The method `Execute`; none of the commands returns an error.
  unfoldable pub execute : Command → State → State × Response
  execute (help_command []) u = (u, help_response documented_commands false)
  execute (help_command (c ∷ commands)) u = (u, help_response (c ∷ commands) true)
  execute (new_address_command ack label pow version stream) u =
      let (u', address) = new_address [] ack u in (u', new_address_response address)
  execute list_addresses_command u = (u, list_addresses_response (list_addresses u))

  -- `RPCCommand`
  unfoldable pub rpc_command : Option RpcRequest → State → State × Called
  unfolding execute build_command
  rpc_command request u = elim (build_command request) [
    | ok command ↦ let (u', response) = execute command u in (u', replied (reply_of response))
    | fail e ↦ (u, refused e)
    | panic ↦ (u, panicked)
  ]

  -- `BMAgentRequest`, under the lock of the server; an error becomes an error reply.
  unfoldable pub bm_agent_request : Bool → Option RpcRequest → State → State × Called
  unfolding rpc_command
  bm_agent_request running req u =
      let (u', called) = rpc_command req u in
      if not running then (u, server_stopped) else elim called [
        | refused e ↦ (u', replied (some (record { version = 1; reply = error_reply e })))
        | replied r ↦ (u', replied r)
        | server_stopped ↦ (u', server_stopped)
        | panicked ↦ (u', panicked)
      ]

  -- `EmailCommand`; none if the reading panics. The subject shows the parameters as the reading
  -- left them.
  unfoldable pub email_command : Text → Text → Text → List Text → State → State × Option Answer
  unfolding read_command execute subject_re
  email_command from agent name params u =
      let (params', c) = read_command name params in
      elim c [
        | ok command ↦
            let (u', r) = execute command u in
            (
              u',
              some
                  (record { from = agent; to = from; subject = subject_re name params'; body = r }),
            )
        | fail e ↦ (
          u,
          some (record {
            from = agent;
            to = from;
            subject = subject_re name params';
            body = error_response e;
          }),
        )
        | panic ↦ (u, none)
      ]
