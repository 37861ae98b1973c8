-- ===== src/Supervisor/Router/Replays.antt =====
-- commands/index.mjs: what a command that has ended answers to a replay.
use web_inspector.Prelude.{
  Bool, List, String, [], arith, eq_iff, if◌then◌else◌, option_cases, some, true, ◌∷◌, ◌≡◌,
  string_eq,
}
use web_inspector.Prelude.Dict.{lookup, lookup-insert}
use web_inspector.Contracts.Commands.{ResultStatus, Verb, failed, in_progress, succeeded}
use web_inspector.Supervisor.Router.{
  Event, Router, begin, deliver, deliver_event, dispatch, finish, fresh, is_settled, progress_event,
  report, settle, settle_event, step, steps,
}
use web_inspector.Supervisor.Router.Once.{Inv, fresh-Inv, steps-Inv, step-Inv}

-- A status that a command has ended with.
abbrev Ended : String → ResultStatus → Router → Type 0
Ended id status r = lookup id r.seen ≡ some status

deliver-Ended :
    (r : Router) (id k : String) (verb : Verb) (status : ResultStatus)
    → is_settled status ≡ true
    → Ended id status r
    → Ended id status (deliver r k verb)
unfolding deliver begin
deliver-Ended r id k verb status s e =
    ground (arith, eq_iff k id, lookup-insert k id in_progress r.seen)

settle-Ended :
    (r : Router) (id k : String) (ok : Bool) (status : ResultStatus)
    → Inv r
    → is_settled status ≡ true
    → Ended id status r
    → Ended id status (settle r k ok)
unfolding settle finish
settle-Ended r id k ok status inv s e =
    option_cases (Ended id status) (lookup k r.running) (λ _. e)
      (λ verb found. ground (
        arith,
        eq_iff k id,
        lookup-insert k id (if dispatch verb ok then succeeded else failed) r.seen,
        inv.open_calls k verb found,
      ))

step-Ended :
    (r : Router) (id : String) (x : Event) (status : ResultStatus)
    → Inv r
    → is_settled status ≡ true
    → Ended id status r
    → Ended id status (step r x)
unfolding step
step-Ended r id (deliver_event k verb) status inv s e = deliver-Ended r id k verb status s e
step-Ended r id (progress_event k) status inv s e =
    option_cases (Ended id status) (lookup k r.running) (λ _. e) (λ verb found. e)
step-Ended r id (settle_event k ok) status inv s e = settle-Ended r id k ok status inv s e

steps-Ended :
    (r : Router) (id : String) (es : List Event) (status : ResultStatus)
    → Inv r
    → is_settled status ≡ true
    → Ended id status r
    → Ended id status (steps r es)
unfolding steps
steps-Ended r id [] status inv s e = e
steps-Ended r id (x ∷ es) status inv s e =
    steps-Ended (step r x) id es status (step-Inv r x inv) s (step-Ended r id x status inv s e)

-- Once a command has ended, a replay of it, whatever has happened in between and whatever verb it
-- now carries, only reports the status that it ended with.
pub replay_reports :
    (before after : List Event) (id : String) (verb : Verb) (status : ResultStatus)
    → lookup id (steps fresh before).seen ≡ some status
    → is_settled status ≡ true
    → let r = steps (steps fresh before) after in deliver r id verb ≡ report r id status
unfolding deliver
replay_reports before after id verb status e s =
    let r0 = steps fresh before in
    let kept = steps-Ended r0 id after status (steps-Inv fresh before fresh-Inv) s e in
    ground (arith, kept)
