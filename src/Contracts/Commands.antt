-- ===== src/Contracts/Commands.antt =====
-- shared/contracts/commands.mjs: the verbs that the ControlPlane sends to a supervisor, and the
-- statuses that it reports back. The text of any other verb or status is kept.
use web_inspector.Prelude.{Bool, Result, String, false, if◌then◌else◌, throw, true, value}

pub data Verb : Type 0 where
  dispatch_job cancel_job update_agent update_control_plane_agent reboot restart_worker : Verb
  drain undrain set_config collect_diagnostics ping : Verb
  other_verb : String → Verb

abbrev pub is_control_command : Verb → Bool
is_control_command (other_verb s) = false
is_control_command _ = true

-- The text of a verb.
abbrev pub verb_text : Verb → String
verb_text dispatch_job = "dispatch_job"
verb_text cancel_job = "cancel_job"
verb_text update_agent = "update_agent"
verb_text update_control_plane_agent = "update_control_plane_agent"
verb_text reboot = "reboot"
verb_text restart_worker = "restart_worker"
verb_text drain = "drain"
verb_text undrain = "undrain"
verb_text set_config = "set_config"
verb_text collect_diagnostics = "collect_diagnostics"
verb_text ping = "ping"
verb_text (other_verb s) = s

-- A command, with its arguments `A`; `issuedAt` is left out.
pub record Command (A : Type 0) : Type 0 where
  pub command_id : String
  pub verb : Verb
  pub args : A

pub data CommandError : Type 0 where
  unknown_control_command unknown_result_status : CommandError

-- `makeCommand(command, args, opts)`; `id` is the fresh id, or the one in `opts`.
unfoldable pub make_command : {A : Type 0} → String → Verb → A → Result CommandError (Command A)
make_command id verb args =
    if is_control_command verb
    then value (record { command_id = id; verb = verb; args = args })
    else throw unknown_control_command

pub data ResultStatus : Type 0 where
  accepted in_progress succeeded failed rejected superseded : ResultStatus
  other_result : String → ResultStatus

abbrev pub is_result_status : ResultStatus → Bool
is_result_status (other_result s) = false
is_result_status _ = true

pub record CommandResult : Type 0 where
  pub command_id : String
  pub status : ResultStatus

-- `makeCommandResult(commandId, status)`
unfoldable pub make_command_result : String → ResultStatus → Result CommandError CommandResult
make_command_result id status =
    if is_result_status status
    then value (record { command_id = id; status = status })
    else throw unknown_result_status
