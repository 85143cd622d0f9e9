-- ===== src/Application/Authorize.antt =====
-- src/application.rs: the authorization policy.
pub mod Policy
use bif.Base.{
  Bool, true, false, ◌&&◌, ◌||◌, not, List, [], ◌∷◌, Option, none, some, Result, ok, err, ◌>>=◌,
  ◌>>◌, if◌then◌else◌, ◌==◌, Eq, list_eq, nat_eq, all, any,
}
use bif.Base.Text.{Text, is_blank, has_text}

pub data ActorKind : Type 0 where
  human agent : ActorKind

unfoldable pub ActorKind-discrete : Discrete ActorKind
ActorKind-discrete human human = yes (λ i. human)
ActorKind-discrete human agent = no (λ e. cc)
ActorKind-discrete agent human = no (λ e. cc)
ActorKind-discrete agent agent = yes (λ i. agent)

instance abbrev pub actor_kind_eq : Eq ActorKind
actor_kind_eq = record { dec = ActorKind-discrete }

pub record Actor : Type 0 where
  pub kind : ActorKind
  pub id : Text
  pub surface : Text
  pub host : Text

pub data Execution : Type 0 where
  direct : Text → Text → Execution  -- surface, host
  agent_execution : Text → Text → Text → Execution  -- agent_id, surface, host

pub data ObservedExecution : Type 0 where
  observed_direct : ObservedExecution
  observed_agent : Text → ObservedExecution

pub data Command : Type 0 where
  read capture : Command
  mutation : List Text → Command  -- requested_changes

pub record Instruction : Type 0 where
  pub instruction_id : Text
  pub instruction_text : Text
  pub authorized_changes : List Text
  pub trusted : Bool

pub data HumanAuthorization : Type 0 where
  direct_authorization : Bool → HumanAuthorization  -- trusted
  explicit_instruction : Instruction → HumanAuthorization

pub record AuthorizationRequest : Type 0 where
  pub actor : Actor
  pub execution : Execution
  pub observed_execution : ObservedExecution
  pub command : Command
  pub human_authorization : Option HumanAuthorization

pub data Unauthorized : Type 0 where
  unauthorized : Unauthorized

-- the `match` of `validate_attribution`, guards and all
abbrev pub attributed : Actor → Execution → ObservedExecution → Bool
attributed actor (direct surface host) observed_direct =
    (actor.kind == human)
    && ((surface == actor.surface) && ((host == actor.host) && (has_text surface && has_text host)))
attributed actor (agent_execution agent_id surface host) (observed_agent observed_id) =
    has_text agent_id
    && ((agent_id == observed_id)
        && ((surface == actor.surface)
            && ((host == actor.host)
                && (has_text surface
                    && (has_text host && ((actor.kind == human) || (actor.id == agent_id)))))))
attributed _ _ _ = false

unfoldable pub validate_attribution : AuthorizationRequest → Result (Unit {0}) Unauthorized
validate_attribution request =
    if is_blank request.actor.id || (is_blank request.actor.surface || is_blank request.actor.host)
    then err unauthorized
    else if attributed request.actor request.execution request.observed_execution
    then ok tt
    else err unauthorized

-- `slice::contains`
abbrev pub contains : List Text → Text → Bool
contains xs t = any (λ x. x == t) xs

abbrev pub is_nil : List Text → Bool
is_nil [] = true
is_nil (x ∷ xs) = false

-- the `match` of `authorize_mutation`
abbrev pub permitted : Execution → Option HumanAuthorization → List Text → Bool
permitted (direct surface host) (some (direct_authorization trusted)) requested_changes = trusted
permitted (agent_execution agent_id surface host) (some (explicit_instruction i))
      requested_changes =
    i.trusted
    && (has_text i.instruction_id
        && (has_text i.instruction_text && all (contains i.authorized_changes) requested_changes))
permitted _ _ _ = false

unfoldable pub authorize_mutation :
    AuthorizationRequest → List Text → Result (Unit {0}) Unauthorized
authorize_mutation request requested_changes =
    if not (request.actor.kind == human) || is_nil requested_changes
    then err unauthorized
    else if permitted request.execution request.human_authorization requested_changes
    then ok tt
    else err unauthorized

pub authorize_command : Command → AuthorizationRequest → Result (Unit {0}) Unauthorized
unfolding authorize_mutation
authorize_command read request = ok tt
authorize_command capture request = ok tt
authorize_command (mutation requested_changes) request =
    authorize_mutation request requested_changes

unfoldable pub authorize : AuthorizationRequest → Result (Unit {0}) Unauthorized
unfolding validate_attribution authorize_command
authorize request = validate_attribution request >> authorize_command request.command request
