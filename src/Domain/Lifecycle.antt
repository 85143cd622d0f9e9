-- ===== src/Domain/Lifecycle.antt =====
-- src/domain.rs: the lifecycle methods of `Item`. A method on `&mut self` returns the item that it
-- leaves behind beside its result.
pub mod Graph
use bif.Base.{Option, none, some, Result, ok, err, not, if◌then◌else◌, ◌==◌}
use bif.Base.Text.{Text, has_text}
use bif.Domain.Item.{Item, Status, proposed, ready, in_progress, blocked, done, rejected, status_eq}

pub data LifecycleError : Type 0 where
  invalid_transition invalid_input : LifecycleError

abbrev pub Method : Type 0 → Type 0 → Type 0
Method A E = Item → Item × Result A E

unfoldable pub transition : Status → Status → Option Text → Method Unit LifecycleError
transition from to reason item =
    if not (item.status == from)
    then (item, err invalid_transition)
    else (record item { status = to; status_reason = reason }, ok tt)

-- `reason.filter(…)`
abbrev pub filter_text : Option Text → Option Text
filter_text none = none
filter_text (some r) = if has_text r then some r else none

abbrev with_reason : Status → Option Text → Method Unit LifecycleError
with_reason to none item = (item, err invalid_input)
with_reason to (some reason) item =
    (record item { status = to; status_reason = some reason }, ok tt)

unfoldable pub transition_with_required_reason :
    Status → Status → Option Text → Method Unit LifecycleError
transition_with_required_reason from to reason item =
    if not (item.status == from)
    then (item, err invalid_transition)
    else with_reason to (filter_text reason) item

unfoldable pub approve : Method Unit LifecycleError
unfolding transition
approve = transition proposed ready none

unfoldable pub reject : Option Text → Method Unit LifecycleError
unfolding transition_with_required_reason
reject reason = transition_with_required_reason proposed rejected reason

unfoldable pub start : Method Unit LifecycleError
unfolding transition
start = transition ready in_progress none

unfoldable pub block : Option Text → Method Unit LifecycleError
unfolding transition_with_required_reason
block reason = transition_with_required_reason in_progress blocked reason

unfoldable pub resume : Method Unit LifecycleError
unfolding transition
resume = transition blocked in_progress none

unfoldable pub finish : Method Unit LifecycleError
unfolding transition
finish = transition in_progress done none
