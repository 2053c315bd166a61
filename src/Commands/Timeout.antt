-- ===== src/Commands/Timeout.antt =====
-- The bounds of a command's timeout that commands/factory.py sets, on a configuration that
-- contracts/config.py accepts.
use ros2_mcp_server.Base.{
  String, ◌≡◌, false, Option, none, some, ok, Except-cases, Bool-cases, inl, inr, arith,
}
use ros2_mcp_server.Number.{Number, IsOrdered, nat}
use ros2_mcp_server.Json.{Fields}
use ros2_mcp_server.Contracts.Core.{Operation, SemanticCommand}
use ros2_mcp_server.Contracts.Config.{TimeoutConfig, validate_timeouts, check_defaults_within_max}
use ros2_mcp_server.Commands.Factory.{
  CreateRequest, resolve_timeout_s, number_at, bounded_timeout, assemble, create,
}

module _ {R : Type 0} ⦃n : Number R⦄ where
  open n use {lt}

  -- The command that is built holds the timeout that was resolved.
  create-timeout :
      (robot_id : String) (request : CreateRequest R) (command : SemanticCommand R)
      → create robot_id request ≡ ok command
      → resolve_timeout_s request.operation request.arguments request.timeout_config
        ≡ ok command.timeout_s
  unfolding create assemble
  create-timeout robot_id request command h = ground arith

  validated :
      (t u : TimeoutConfig R)
      → validate_timeouts t ≡ ok u
      → (lt t.move_max_s t.move_default_s ≡ false)
        × (lt t.navigate_max_s t.navigate_default_s ≡ false)
  unfolding validate_timeouts check_defaults_within_max
  validated t u h = (ground arith, ground arith)

  abbrev pub IsBounded : TimeoutConfig R → Operation → R → Type 0
  IsBounded t Operation.move x = lt t.move_max_s x ≡ false
  IsBounded t Operation.navigate x = lt t.navigate_max_s x ≡ false
  IsBounded t _ x = x ≡ nat 5

  bounded-IsBounded :
      IsOrdered n
      → (t u : TimeoutConfig R) → validate_timeouts t ≡ ok u
      → (requested : Option R) → lt t.move_max_s (bounded_timeout t requested) ≡ false
  bounded-IsBounded order t u v none = (validated t u v).0
  bounded-IsBounded order t u v (some r) = elim (Bool-cases (lt t.move_max_s (n.to_float r))) [
    | inl e ↦ rw e (order.lt_irrefl t.move_max_s)
    | inr e ↦ rw e e
  ]

  resolve-IsBounded :
      IsOrdered n
      → (operation : Operation) (arguments : Fields R) (t u : TimeoutConfig R) (x : R)
      → validate_timeouts t ≡ ok u
      → resolve_timeout_s operation arguments t ≡ ok x
      → IsBounded t operation x
  unfolding resolve_timeout_s
  resolve-IsBounded order Operation.move arguments t u x v h =
      elim (Except-cases (number_at "timeout_s" arguments)) [
        | inl (o, e) ↦
            let same : bounded_timeout t o ≡ x = ground (arith, e, h) in
            rw (← same) (bounded-IsBounded order t u v o)
        | inr (e, k) ↦ absurd (ground (arith, k, h))
      ]
  resolve-IsBounded order Operation.navigate arguments t u x v h =
      let same : t.navigate_default_s ≡ x = cc in rw (← same) ((validated t u v).1)
  resolve-IsBounded order _ arguments t u x v h = ground arith

  -- On numbers that are ordered and a configuration that is accepted, no command that the factory
  -- builds may run longer than the configured maximum: a move's timeout is not above `move_max_s`,
  -- whatever the caller asks for, and a goal's is not above `navigate_max_s`; every other command
  -- has 5 seconds.
  pub create-IsBounded :
      IsOrdered n
      → (robot_id : String) (request : CreateRequest R) (u : TimeoutConfig R)
        (command : SemanticCommand R)
      → validate_timeouts request.timeout_config ≡ ok u
      → create robot_id request ≡ ok command
      → IsBounded request.timeout_config request.operation command.timeout_s
  create-IsBounded order robot_id request u command v h =
      resolve-IsBounded order request.operation request.arguments request.timeout_config u
        command.timeout_s v (create-timeout robot_id request command h)
