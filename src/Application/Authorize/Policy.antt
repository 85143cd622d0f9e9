-- ===== src/Application/Authorize/Policy.antt =====
-- The policy that `authorize` decides, as relations on requests.
use bif.Base.{
  true, List, [], ◌∷◌, Option, none, some, ok, ◌≡◌, ◌≢◌, ◌↔◌, ◌⊎◌, All, all, list_eq, nat_eq, arith,
  refl, sym, List-discrete, ℕ_discrete,
}
use bif.Base.Text.{Text, has_text}
use bif.Application.Authorize.{
  human, Actor, Execution, direct, agent_execution, ObservedExecution, observed_direct,
  observed_agent, Command, read, capture, mutation, HumanAuthorization, direct_authorization,
  explicit_instruction, AuthorizationRequest, contains, authorize, attributed, permitted,
  authorize_command,
}
use mathlib.Core.List.{Memᴰ}

abbrev pub HasText : Text → Type 0
HasText s = has_text s ≡ true

-- Who carried the operation out, as the request declares it and as the host observed it.
abbrev pub Attributed : Actor → Execution → ObservedExecution → Type 0
Attributed a (direct surface host) observed_direct =
    (a.kind ≡ human) × (surface ≡ a.surface) × (host ≡ a.host)
Attributed a (agent_execution agent_id surface host) (observed_agent observed_id) =
    HasText agent_id
    × (agent_id ≡ observed_id)
    × (surface ≡ a.surface)
    × (host ≡ a.host)
    × ((a.kind ≡ human) ⊎ (a.id ≡ agent_id))
Attributed _ _ _ = ⊥

pub record IsAttributed (r : AuthorizationRequest) : Type 0 where
  pub named : HasText r.actor.id
  pub surfaced : HasText r.actor.surface
  pub hosted : HasText r.actor.host
  pub attributed : Attributed r.actor r.execution r.observed_execution

-- What a human has permitted.
abbrev pub Permits : List Text → Execution → Option HumanAuthorization → Type 0
Permits changes (direct surface host) (some (direct_authorization trusted)) = trusted ≡ true
Permits changes (agent_execution agent_id surface host) (some (explicit_instruction i)) =
    (i.trusted ≡ true)
    × HasText i.instruction_id
    × HasText i.instruction_text
    × All (λ change. Memᴰ change i.authorized_changes) changes
Permits _ _ _ = ⊥

abbrev pub CommandAllowed : AuthorizationRequest → Command → Type 0
CommandAllowed r (mutation changes) =
    (r.actor.kind ≡ human) × (changes ≢ []) × Permits changes r.execution r.human_authorization
CommandAllowed r _ = Unit

pub record Allowed (r : AuthorizationRequest) : Type 0 where
  pub attribution : IsAttributed r
  pub command : CommandAllowed r r.command

contains-Memᴰ : (xs : List Text) (t : Text) → contains xs t ≡ true → Memᴰ t xs
contains-Memᴰ [] t h = cc
contains-Memᴰ (x ∷ xs) t h = elim (List-discrete ℕ_discrete x t) [
  | yes p ↦ Memᴰ.head (sym p)
  | no n ↦ Memᴰ.tail (contains-Memᴰ xs t (ground arith))
]

Memᴰ-contains : (xs : List Text) (t : Text) → Memᴰ t xs → contains xs t ≡ true
Memᴰ-contains [] t m = elim m [ ]
Memᴰ-contains (x ∷ xs) t (Memᴰ.head p) = ground arith
Memᴰ-contains (x ∷ xs) t (Memᴰ.tail m) = ground (arith, Memᴰ-contains xs t m)

all-contains : (xs ts : List Text) → (all (contains xs) ts ≡ true) ↔ All (λ t. Memᴰ t xs) ts
all-contains xs [] = (λ _. tt, λ _. refl)
all-contains xs (t ∷ ts) = (
  λ h. (contains-Memᴰ xs t (ground arith), (all-contains xs ts).0 (ground arith)),
  λ (m, ms). ground (arith, Memᴰ-contains xs t m, (all-contains xs ts).1 ms),
)

attributed_iff :
    (a : Actor) (e : Execution) (o : ObservedExecution)
    → HasText a.surface
    → HasText a.host
    → (attributed a e o ≡ true) ↔ Attributed a e o
attributed_iff a (direct s h) observed_direct hs hh = (λ t. ground arith, λ t. ground arith)
attributed_iff a (agent_execution i s h) (observed_agent o) hs hh =
    (λ t. ground arith, λ t. ground arith)
attributed_iff a (direct s h) (observed_agent o) hs hh = (λ t. cc, λ t. absurd t)
attributed_iff a (agent_execution i s h) observed_direct hs hh = (λ t. cc, λ t. absurd t)

permitted_iff :
    (e : Execution) (h : Option HumanAuthorization) (changes : List Text)
    → (permitted e h changes ≡ true) ↔ Permits changes e h
permitted_iff (direct s h) (some (direct_authorization trusted)) changes = (λ t. t, λ t. t)
permitted_iff (agent_execution a s h) (some (explicit_instruction i)) changes = (
  λ t. ground (arith, (all-contains i.authorized_changes changes).0),
  λ t. ground (arith, (all-contains i.authorized_changes changes).1),
)
permitted_iff (direct s h) none changes = (λ t. cc, λ t. absurd t)
permitted_iff (direct s h) (some (explicit_instruction i)) changes = (λ t. cc, λ t. absurd t)
permitted_iff (agent_execution a s h) none changes = (λ t. cc, λ t. absurd t)
permitted_iff (agent_execution a s h) (some (direct_authorization t)) changes =
    (λ t. cc, λ t. absurd t)

command_iff :
    (c : Command) (r : AuthorizationRequest) → (authorize_command c r ≡ ok tt) ↔ CommandAllowed r c
unfolding authorize_command
command_iff read r = (λ _. tt, λ _. refl)
command_iff capture r = (λ _. tt, λ _. refl)
command_iff (mutation []) r = (λ h. ground arith, λ (_, n, _). absurd (n refl))
command_iff (mutation (x ∷ xs)) r =
    let p = permitted_iff r.execution r.human_authorization (x ∷ xs) in
    (λ h. (ground arith, λ e. cc, p.0 (ground arith)), λ (k, _, m). ground (arith, p.1 m))

-- `authorize` accepts a request exactly when it is attributed as the host observed it and, for a
-- mutation, a human actor asks for at least one change and has permitted every one: in person, or
-- by a trusted instruction that names them.
pub authorize_iff : (r : AuthorizationRequest) → (authorize r ≡ ok tt) ↔ Allowed r
unfolding authorize
authorize_iff r =
    let a = attributed_iff r.actor r.execution r.observed_execution in
    let c = command_iff r.command r in
    (
      λ h. record {
        attribution = record {
          named = ground arith;
          surfaced = ground arith;
          hosted = ground arith;
          attributed = (a (ground arith) (ground arith)).0 (ground arith);
        };
        command = c.0 (ground arith);
      },
      λ w. ground (
        arith,
        (a w.attribution.surfaced w.attribution.hosted).1 w.attribution.attributed,
        c.1 w.command,
      ),
    )
