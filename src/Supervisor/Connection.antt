-- ===== src/Supervisor/Connection.antt =====
-- control-plane-agent/core/connection.mjs: the control channel of a supervisor. `E` is the type of an
-- envelope; `sent` are the envelopes that a socket or an acknowledged push took, oldest first. What
-- the network does is a call of its own: a socket opens or closes, a push is answered.
pub mod Order
mod Tests
use web_inspector.Prelude.{
  Bool, List, [], false, if◌then◌else◌, leb, length, ltb, min, not, suc, true, ℕ, ◌&&◌, ◌*◌, ◌++◌,
  ◌+◌, ◌^◌, ◌||◌, ◌∷◌,
}

pub data Mode : Type 0 where
  websocket longpoll : Mode

abbrev pub is_longpoll : Mode → Bool
is_longpoll websocket = false
is_longpoll longpoll = true

-- `transport`: the one that is asked for, or `auto`.
pub data Wanted : Type 0 where
  auto : Wanted
  only : Mode → Wanted

abbrev pub is_auto : Wanted → Bool
is_auto auto = true
is_auto (only m) = false

abbrev pub first_mode : Wanted → Mode
first_mode auto = websocket
first_mode (only m) = m

pub record Connection (E : Type 0) : Type 0 where
  pub wanted : Wanted
  pub failover_after : ℕ
  pub mode : Mode
  pub socket_open : Bool
  pub closed : Bool
  pub attempt : ℕ
  pub failures : ℕ
  pub outbox : List E
  pub sent : List E

-- `backoff()`: the new attempt, and the delay; `jitter` is `Math.floor(Math.random() * 250)`.
unfoldable pub backoff : ℕ → ℕ → ℕ → ℕ → ℕ × ℕ
backoff base cap jitter attempt = (suc attempt, min cap (base * 2 ^ attempt) + jitter)

-- The answer to a push: 2xx, 401, or anything else.
pub data PushAnswer : Type 0 where
  taken unauthorized refused : PushAnswer

module _ {E : Type 0} where
  -- `createConnection({ transport, intervals })`
  abbrev pub new_connection : Wanted → ℕ → Connection E
  new_connection wanted failover_after = record {
    wanted = wanted;
    failover_after = failover_after;
    mode = first_mode wanted;
    socket_open = false;
    closed = false;
    attempt = 0;
    failures = 0;
    outbox = [];
    sent = [];
  }

  -- The socket of `mode === "websocket" && socket?.readyState === OPEN`
  abbrev pub can_write : Connection E → Bool
  can_write c = not (is_longpoll c.mode) && c.socket_open

  -- `sendRaw(envelope)`; the flush that it starts under long-polling is `on_push`.
  unfoldable pub send_raw : Connection E → E → Connection E
  send_raw c e =
      if can_write c
      then record c { sent = c.sent ++ (e ∷ []) }
      else if ltb (length c.outbox) 1000
      then record c { outbox = c.outbox ++ (e ∷ []) }
      else c

  -- `flushWs()`
  unfoldable pub flush_ws : Connection E → Connection E
  flush_ws c = if c.socket_open then record c { sent = c.sent ++ c.outbox; outbox = [] } else c

  -- A WebSocket's `open` event
  unfoldable pub on_open : Connection E → Connection E
  unfolding flush_ws
  on_open c = flush_ws (record c { socket_open = true; attempt = 0; failures = 0 })

  -- `startLongPoll()` up to its flush
  unfoldable pub start_long_poll : Connection E → Connection E
  start_long_poll c = if c.closed then c else record c { mode = longpoll; attempt = 0 }

  -- A WebSocket's `close` event; `opened` says whether it had been open.
  unfoldable pub on_close : Connection E → Bool → Connection E
  unfolding start_long_poll
  on_close c opened =
      let gone = record c { socket_open = false } in
      let failed = suc c.failures in
      let counted = record gone { failures = failed } in
      if c.closed
      then gone
      else if not opened && is_auto c.wanted
      then (if leb c.failover_after failed
          then start_long_poll counted
          else record counted { attempt = suc c.attempt })
      else record gone { attempt = suc c.attempt }

  -- `lpFlush`, once the push of the first envelope is answered
  abbrev pub push_first : Connection E → PushAnswer → List E → Connection E
  push_first c answer [] = c
  push_first c taken (e ∷ rest) = record c { outbox = rest; sent = c.sent ++ (e ∷ []) }
  push_first c unauthorized (e ∷ rest) = record c { closed = true }
  push_first c refused (e ∷ rest) = c

  unfoldable pub on_push : Connection E → PushAnswer → Connection E
  on_push c answer =
      if c.closed || not (is_longpoll c.mode) then c else push_first c answer c.outbox

  -- `close()`
  unfoldable pub close : Connection E → Connection E
  close c = record c { closed = true; socket_open = false }
