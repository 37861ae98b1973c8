-- ===== src/Server/LongPoll/Tests.antt =====
-- A session, and an instance of its theorem.
use web_inspector.Prelude.{List, String, [], refl, some, ℕ, ◌∷◌, ◌≡◌}
use web_inspector.Server.LongPoll.{
  flush_waiter, new_session, poll, release, send_down, time_out, Transport, get_lp_session,
}
use web_inspector.Server.LongPoll.Delivery.{
  Event, accounted, delivered_in_order, polled, sent, step, steps, timed_out,
}

abbrev a_minute : List (Event String)
a_minute =
    sent "hello_ack"
    ∷ polled 1
    ∷ polled 2
    ∷ sent "ping"
    ∷ sent "drain"
    ∷ sent "undrain"
    ∷ polled 3
    ∷ timed_out 2
    ∷ []

answers :
    (steps (new_session 0) a_minute).responses
    ≡ (1, "hello_ack" ∷ []) ∷ (2, "ping" ∷ []) ∷ (3, "drain" ∷ "undrain" ∷ []) ∷ []
unfolding steps step send_down flush_waiter poll release time_out
answers = refl

delivered_in_order_example :
    (accounted (steps (new_session 0) a_minute) ≡ "hello_ack" ∷ "ping" ∷ "drain" ∷ "undrain" ∷ [])
    × ((req : ℕ)
        → (steps (new_session 0) a_minute).waiter ≡ some req
        → (steps (new_session 0) a_minute).queue ≡ [])
delivered_in_order_example = delivered_in_order 0 a_minute

abbrev polling : Transport String
polling =
    get_lp_session (record { sessions = []; registry = record { nodes = []; sessions = [] } })
      "hello_ack" 5 "azure_direct:vm1"
