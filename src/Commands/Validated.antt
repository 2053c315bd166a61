-- ===== src/Commands/Validated.antt =====
-- What validation guarantees of the command that the factory then builds: the tests of
-- validation/engine.py against what commands/factory.py stores and the adapters assert.
use ros2_mcp_server.Base.{
  String, ◌≡◌, true, false, ◌||◌, List, [], ◌∷◌, Option, none, some, contains, ok,
}
use ros2_mcp_server.Number.{Number, nat}
use ros2_mcp_server.Json.{str, Fields, Message, text, lookup}
use ros2_mcp_server.Contracts.Core.{
  Operation, MoveTarget, move_target, SemanticCommand, SafetyConstraints,
}
use ros2_mcp_server.Validation.Engine.{translation_directions, rotation_directions}
use ros2_mcp_server.Validation.Conforms.{NumberField, given}
use ros2_mcp_server.Mcp.Schemas.{at_least, between}
use ros2_mcp_server.Commands.Factory.{CreateRequest, create}
use ros2_mcp_server.Safety.Decision.{AreLimits}

abbrev six : List String
six = "forward" ∷ "backward" ∷ "left" ∷ "right" ∷ "rotate_left" ∷ "rotate_right" ∷ []

module _ {R : Type 0} ⦃n : Number R⦄ where
  open n use {lt}

  abbrev pub Present : (R → Type 0) → Option R → Type 0
  Present P none = ⊥
  Present P (some a) = P a

  -- A move that the motion adapter can carry out: its direction is one of the six, a translation
  -- has a distance that is not below 0, and a rotation an angle that is not outside 0 to 360.
  pub record MoveIsComplete (t : MoveTarget R) : Type 0 where
    pub known :
        contains translation_directions t.direction || contains rotation_directions t.direction
        ≡ true
    pub distance :
        contains translation_directions t.direction ≡ true
        → Present (λ d. lt d (nat 0) ≡ false) t.distance_m
    pub angle :
        contains rotation_directions t.direction ≡ true
        → Present (λ a. (lt a (nat 0) ≡ false) × (lt (nat 360) a ≡ false)) t.angle_deg

  abbrev root : Message R
  root = text "$" ∷ []

  -- The four arguments of `robot.move`, as `create` reads them.
  record MoveArguments (arguments : Fields R) : Type 0 where
    direction : String
    distance_m : Option R
    angle_deg : Option R
    timeout_s : Option R
    has_direction : lookup "direction" arguments ≡ some (str direction)
    known :
        contains translation_directions direction || contains rotation_directions direction ≡ true
    has_distance : NumberField (at_least (nat 0)) (lookup "distance_m" arguments) distance_m
    has_angle : NumberField (between (nat 0) (nat 360)) (lookup "angle_deg" arguments) angle_deg
    has_timeout : NumberField (at_least (n.ratio 1 10)) (lookup "timeout_s" arguments) timeout_s

  -- The target says what the arguments say.
  pub record AsAsked (arguments : Fields R) (t : MoveTarget R) : Type 0 where
    pub direction : lookup "direction" arguments ≡ some (str t.direction)
    pub distance : lookup "distance_m" arguments ≡ given t.distance_m
    pub angle : lookup "angle_deg" arguments ≡ given t.angle_deg

  -- A move of the robot and the session that asked for it, under the fresh id.
  pub record IsAddressed (robot_id : String) (request : CreateRequest R) (c : SemanticCommand R)
      : Type 0 where
    pub operation : c.operation ≡ Operation.move
    pub command_id : c.command_id ≡ request.fresh_id
    pub robot_id_of : c.robot_id ≡ robot_id
    pub session_id : c.session_id ≡ request.session_id

  -- The command that the factory builds from accepted arguments, with the target that it holds.
  pub record MoveIsReady (robot_id : String) (request : CreateRequest R) : Type 0 where
    pub command : SemanticCommand R
    pub target : MoveTarget R
    pub constraints : SafetyConstraints R
    pub created : create robot_id request ≡ ok command
    pub holds : command.target ≡ move_target target
    pub complete_target : MoveIsComplete target
    pub as_asked : AsAsked request.arguments target
    pub addressed : IsAddressed robot_id request command
    pub has_constraints : command.safety_constraints ≡ some constraints
    pub limits : AreLimits request.safety_config constraints
