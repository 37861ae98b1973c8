-- ===== src/Server/LongPoll.antt =====
-- The long-poll transport of control-plane/server/channel.mjs. A session keeps what was answered to
-- the polls of its node, oldest first, in `responses`; `E` is the type of an envelope and a request
-- is a number. The table of sessions stands beside the registry, whose session handle is the node id.
-- A request that is not authenticated is answered with 401 before any of this.
pub mod Delivery
pub mod Reaping
mod Tests
use web_inspector.Prelude.{
  Bool, List, Option, String, [], eqb, false, if◌then◌else◌, ltb, none, not, some, true, ℕ, ◌&&◌,
  ◌++◌, ◌-◌, ◌∷◌, string_eq,
}
use web_inspector.Prelude.Dict.{Dict, delete, insert, lookup}
use web_inspector.Control.Registry.{Registry, attach_session, detach_session}

pub record LpSession (E : Type 0) : Type 0 where
  pub queue : List E
  pub waiter : Option ℕ
  pub last_seen : ℕ
  pub responses : List (ℕ × List E)

pub record Transport (E : Type 0) : Type 0 where
  pub sessions : Dict String (LpSession E)
  pub registry : Registry String

module _ {E : Type 0} where
  abbrev pub answer : LpSession E → ℕ → List E → LpSession E
  answer s req body = record s { responses = s.responses ++ ((req, body) ∷ []) }

  abbrev pub is_nil : List E → Bool
  is_nil [] = true
  is_nil (_ ∷ _) = false

  -- `flushWaiter()`
  unfoldable pub flush_waiter : LpSession E → LpSession E
  flush_waiter s = elim s.waiter [
    | none ↦ s
    | some req ↦
        if is_nil s.queue then s else answer (record s { waiter = none; queue = [] }) req s.queue
  ]

  -- `send(envelope)` of a session
  unfoldable pub send_down : LpSession E → E → LpSession E
  send_down s e = flush_waiter (record s { queue = s.queue ++ (e ∷ []) })

  -- The answer to a poll that another one replaces, and to the open poll of a session that closes
  unfoldable pub release : LpSession E → LpSession E
  release s = elim s.waiter [ none ↦ s | some req ↦ answer (record s { waiter = none }) req [] ]

  -- `handlePoll` of an authenticated request, after `getLpSession`
  unfoldable pub poll : LpSession E → ℕ → LpSession E
  unfolding release
  poll s req =
      if not (is_nil s.queue)
      then answer (record s { queue = [] }) req s.queue
      else record (release s) { waiter = some req }

  abbrev pub is_waiting : LpSession E → ℕ → Bool
  is_waiting s req = elim s.waiter [ none ↦ false | some r ↦ eqb r req ]

  -- The timer of a poll fires
  unfoldable pub time_out : LpSession E → ℕ → LpSession E
  time_out s req = if is_waiting s req then answer (record s { waiter = none }) req [] else s

  -- The client closes the request of a poll
  unfoldable pub hang_up : LpSession E → ℕ → LpSession E
  hang_up s req = if is_waiting s req then record s { waiter = none } else s

  abbrev pub new_session : ℕ → LpSession E
  new_session now = record { queue = []; waiter = none; last_seen = now; responses = [] }

  -- `getLpSession(nodeId)`, given what the table holds
  abbrev pub session_with : Transport E → E → ℕ → String → Option (LpSession E) → Transport E
  session_with t hello_ack now id (some s) = record t {
    sessions = insert id (record s { last_seen = now }) t.sessions;
  }
  session_with t hello_ack now id none = record {
    sessions = insert id (send_down (new_session now) hello_ack) t.sessions;
    registry = attach_session t.registry id id;
  }

  -- `getLpSession(nodeId)`; `hello_ack` is the message that greets a new session.
  unfoldable pub get_lp_session : Transport E → E → ℕ → String → Transport E
  get_lp_session t hello_ack now id = session_with t hello_ack now id (lookup id t.sessions)

  -- `detachLp(nodeId)`
  unfoldable pub detach_lp : Transport E → String → Transport E
  detach_lp t id = elim (lookup id t.sessions) [
    | none ↦ t
    | some s ↦ record { sessions = delete id t.sessions; registry = detach_session t.registry id }
  ]

  -- The `close` event of a WebSocket of the node
  unfoldable pub close_socket : Transport E → String → Transport E
  close_socket t id = record t { registry = detach_session t.registry id }

  -- The sweeper's test
  abbrev pub is_idle : ℕ → ℕ → LpSession E → Bool
  is_idle idle_after now s =
      not (elim s.waiter [ none ↦ false | some _ ↦ true ]) && ltb idle_after (now - s.last_seen)

  -- A round of the sweeper
  unfoldable pub sweep_entries : ℕ → ℕ → List (String × LpSession E) → Transport E → Transport E
  sweep_entries idle_after now [] t = t
  sweep_entries idle_after now ((id, s) ∷ rest) t =
      sweep_entries idle_after now rest (if is_idle idle_after now s then detach_lp t id else t)

  unfoldable pub sweep_idle : Transport E → ℕ → ℕ → Transport E
  unfolding sweep_entries
  sweep_idle t idle_after now = sweep_entries idle_after now t.sessions t
