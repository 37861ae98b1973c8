-- ===== src/Supervisor/Connection/Tests.antt =====
-- connection.mjs: the channel on concrete events.
use web_inspector.Prelude.{List, [], false, length, refl, ℕ, ◌++◌, ◌∷◌, ◌≡◌, ◌≤◌}
use web_inspector.Supervisor.Connection.{
  auto, flush_ws, new_connection, on_close, on_open, on_push, refused, send_raw, start_long_poll,
  taken,
}
use web_inspector.Supervisor.Connection.Order.{
  Event, accepted, close_event, goes_up_in_order, open_event, push_event, send_event, step, steps,
}

-- The socket never opens, the channel falls over to long-polling, and a refused push is tried again.
abbrev failover_events : List (Event ℕ)
failover_events =
    send_event 1
    ∷ close_event false
    ∷ send_event 2
    ∷ close_event false
    ∷ push_event taken
    ∷ push_event refused
    ∷ send_event 3
    ∷ push_event taken
    ∷ []

test_failover : (steps {E = ℕ} (new_connection auto 2) failover_events).sent ≡ 1 ∷ 2 ∷ []
unfolding steps step send_raw on_close start_long_poll on_push
test_failover = refl

test_reopen :
    (steps {E = ℕ} (new_connection auto 3) (send_event 1 ∷ open_event ∷ send_event 2 ∷ [])).sent
    ≡ 1 ∷ 2 ∷ []
unfolding steps step send_raw on_open flush_ws
test_reopen = refl

goes_up_in_order_example :
    let c = steps {E = ℕ} (new_connection auto 2) failover_events in
    (c.sent ++ c.outbox ≡ accepted (new_connection auto 2) failover_events)
    × (length c.outbox ≤ 1000)
goes_up_in_order_example = goes_up_in_order auto 2 failover_events
