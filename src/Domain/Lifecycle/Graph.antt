-- ===== src/Domain/Lifecycle/Graph.antt =====
-- The lifecycle as a graph on statuses, with the items left out.
use bif.Domain.Item.{Status, proposed, ready, in_progress, blocked, done, rejected}

infix 40 ◌⟶◌ ◌⟶*◌
pub data ◌⟶◌ : Status → Status → Type 0 where
  approves : proposed ⟶ ready
  rejects : proposed ⟶ rejected
  starts : ready ⟶ in_progress
  blocks : in_progress ⟶ blocked
  resumes : blocked ⟶ in_progress
  finishes : in_progress ⟶ done

pub data ◌⟶*◌ (s : Status) : Status → Type 0 where
  here : s ⟶* s
  next : {t u : Status} → s ⟶* t → t ⟶ u → s ⟶* u

pub ruleset edges = (approves, rejects, starts, blocks, resumes, finishes)

pub ⟶*-trans : {s t u : Status} → s ⟶* t → t ⟶* u → s ⟶* u
⟶*-trans p here = p
⟶*-trans p (next q e) = next (⟶*-trans p q) e
