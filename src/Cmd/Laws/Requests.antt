-- ===== src/Cmd/Laws/Requests.antt =====
-- cmd/rpc.go, cmd/email.go: requests, the commands that are built from them, and the answers.
use bmagent.Base.{
  ℕ, Bool, true, false, ◌≡◌, ◌⊎◌, inl, inr, refl, ap, Option, none, some, List, Text, codes,
}
use bmagent.Cmd.Pattern.{Error, message, Outcome, ok, fail, panic}
use bmagent.Cmd.Command.{
  PowData, Command, help_command, new_address_command, list_addresses_command,
}
use bmagent.Cmd.Table.{read_command}
use bmagent.Cmd.Request.{
  RpcRequest, build_help_command, build_pow, build_new_address_command, build_request,
  build_command, request_of, rpc_request, clashes,
}
use bmagent.Cmd.Run.{
  User, error_response, error_reply, Called, replied, refused, server_stopped, panicked, reply_of,
  Answer, execute, rpc_command, bm_agent_request, email_command,
}
use bmagent.Cmd.Laws.Reading.{AllKnown, first_unknown-none}
use bmagent.Cmd.Laws.NoPanic.{read_command-no_panic}

Outcome-cases {ℓ} :
    {A : Type ℓ} (x : Outcome A)
    → ((a : A) × (x ≡ ok a)) ⊎ ((e : Error) × (x ≡ fail e)) ⊎ (x ≡ panic)
Outcome-cases (ok a) = inl (a, refl)
Outcome-cases (fail e) = inr (inl (e, refl))
Outcome-cases panic = inr (inr refl)

-- For known names: a request that a command writes builds the command again, if it is a help command of known names
-- or the command that lists addresses. A command for a new address keeps its label only.
build_command-rpc_request :
    (names : List Text) (ack : Bool) (label : Option Text) (pow : Option PowData) (v s : ℕ)
    → AllKnown names
    → let back = λ (c : Command). build_command (some (rpc_request c)) in
      (back (help_command names) ≡ ok (help_command names))
      × (back list_addresses_command ≡ ok list_addresses_command)
      × (back (new_address_command ack label pow v s)
          ≡ ok (
              new_address_command true label
                (some (record { nonce_trials_per_byte = 0; extra_bytes = 0 }))
                4
                1))
unfolding build_command build_request build_help_command build_new_address_command build_pow
    rpc_request request_of
build_command-rpc_request names ack label pow v s h =
    (rw (first_unknown-none names h) refl, refl, refl)

-- A request for a new address of version 4 and stream 1 (or of none) that names the nonce trials
-- never makes a command: with the extra bytes it is refused, without them the server panics. One
-- that does not name the nonce trials makes a command with zero for both, whatever it says of the
-- extra bytes.
pub build_new_address_command-pow :
    (version address_version stream : Option ℕ) (label : Option Text) (ack : Option Bool)
    → (n e : ℕ) (extra : Option ℕ) → clashes address_version 4 ≡ false
    → clashes stream 1 ≡ false
    → let build = λ (trials extra_bytes : Option ℕ). build_new_address_command (record {
      version = version;
      address_version = address_version;
      stream = stream;
      label = label;
      ack = ack;
      nonce_trials_per_byte = trials;
      extra_bytes = extra_bytes;
    }) in
      let zeros : PowData = record { nonce_trials_per_byte = 0; extra_bytes = 0 } in
      (build (some n) (some e)
        ≡ fail (message (codes "Must provide both nonce trials per byte and extra bytes.")))
      × (build (some n) none ≡ panic)
      × ((a : Bool) × (build none extra ≡ ok (new_address_command a label (some zeros) 4 1)))
unfolding build_new_address_command build_pow
build_new_address_command-pow version address_version stream label ack n e extra v s =
    rw (v, s) (refl, refl, (_, refl))

module _ (U : User) where
  open U use {State}

  rpc_command-ok :
      (req : Option RpcRequest) (u : State) (c : Command)
      → build_command req ≡ ok c
      → rpc_command U req u ≡ ((execute U c u).0, replied (reply_of (execute U c u).1))
  unfolding rpc_command
  rpc_command-ok req u c h = rw (h, rpc_command) refl

  rpc_command-fail :
      (req : Option RpcRequest) (u : State) (x : Error)
      → build_command req ≡ fail x
      → rpc_command U req u ≡ (u, refused x)
  unfolding rpc_command
  rpc_command-fail req u x h = rw (h, rpc_command) refl

  rpc_command-panic :
      (req : Option RpcRequest) (u : State)
      → build_command req ≡ panic
      → rpc_command U req u ≡ (u, panicked)
  unfolding rpc_command
  rpc_command-panic req u h = rw (h, rpc_command) refl

  -- A server that does not run refuses every request and keeps the state. A running server returns
  -- no error of its own: a request that builds a command is answered by the reply of its execution,
  -- a request that builds none by an error reply, with the state kept; a request whose building
  -- panics keeps the state as well.
  bm_agent_request-cases :
      (req : Option RpcRequest) (u : State)
      → (bm_agent_request U false req u ≡ (u, server_stopped))
        × (((c : Command) × (build_command req ≡ ok c)
              × (bm_agent_request U true req u
                  ≡ ((execute U c u).0, replied (reply_of (execute U c u).1))))
            ⊎ ((x : Error) × (build_command req ≡ fail x)
                × (bm_agent_request U true req u
                    ≡ (u, replied (some (record { version = 1; reply = error_reply x })))))
            ⊎ ((build_command req ≡ panic) × (bm_agent_request U true req u ≡ (u, panicked))))
  unfolding bm_agent_request
  bm_agent_request-cases req u = (
    refl,
    elim (Outcome-cases (build_command req)) [
      | inl (c, h) ↦ inl (
        c,
        h,
        rw (ap (λ (r : State × Called). r.1) (rpc_command-ok req u c h), bm_agent_request)
            (rw (ap (λ (r : State × Called). r.0) (rpc_command-ok req u c h)) refl),
      )
      | inr (inl (x, h)) ↦ inr (
          inl (
            x,
            h,
            rw (ap (λ (r : State × Called). r.1) (rpc_command-fail req u x h), bm_agent_request)
                (rw (ap (λ (r : State × Called). r.0) (rpc_command-fail req u x h)) refl),
          ))
      | inr (inr h) ↦ inr (
          inr (
            h,
            rw (ap (λ (r : State × Called). r.1) (rpc_command-panic req u h), bm_agent_request)
                (rw (ap (λ (r : State × Called). r.0) (rpc_command-panic req u h)) refl),
          ))
    ],
  )

  -- An email command is always answered, by a message from the agent to the sender. Where the
  -- reading fails the body is that error and the state is kept; where it gives a command the body
  -- and the state are those of its execution.
  pub email_command-answers :
      (from agent name : Text) (params : List Text) (u : State)
      → (a : Answer) × ((email_command U from agent name params u).1 ≡ some a)
        × (a.from ≡ agent)
        × (a.to ≡ from)
        × (((c : Command) × ((read_command name params).1 ≡ ok c)
              × (a.body ≡ (execute U c u).1)
              × ((email_command U from agent name params u).0 ≡ (execute U c u).0))
            ⊎ ((x : Error) × ((read_command name params).1 ≡ fail x)
                × (a.body ≡ error_response x)
                × ((email_command U from agent name params u).0 ≡ u)))
  unfolding email_command
  email_command-answers from agent name params u =
      elim (Outcome-cases (read_command name params).1) [
        | inl (c, h) ↦ rw (h, email_command) (_, refl, refl, refl, inl (c, refl, refl, refl))
        | inr (inl (x, h)) ↦ rw (h, email_command) (_, refl, refl, refl, inr (x, refl, refl, refl))
        | inr (inr h) ↦ absurd (read_command-no_panic name params h)
      ]
