-- ===== src/Server/LongPoll/Reaping.antt =====
-- channel.mjs: the table of long-poll sessions and the registry.
use web_inspector.Prelude.{
  List, String, [], arith, eq_iff, none, refl, some, subst, sym, ℕ, ◌∷◌, ◌≡◌, string_eq,
}
use web_inspector.Prelude.Dict.{insert, lookup, lookup-delete, lookup-insert_self}
use web_inspector.Control.Registry.{detach_session, upsert}
use web_inspector.Server.LongPoll.{LpSession, Transport, close_socket, get_lp_session, session_with}

module _ {E : Type 0} where
  -- A node with a long-poll session comes back for a poll or a push at each of some times.
  unfoldable pub visits : Transport E → E → String → List ℕ → Transport E
  visits t hello_ack id [] = t
  visits t hello_ack id (now ∷ times) =
      visits (get_lp_session t hello_ack now id) hello_ack id times

  detached_stays :
      (t : Transport E) (hello_ack : E) (id : String) (s : LpSession E) (times : List ℕ)
      → lookup id t.sessions ≡ some s
      → lookup id t.registry.sessions ≡ none
      → lookup id (visits t hello_ack id times).registry.sessions ≡ none
  unfolding visits get_lp_session
  detached_stays t hello_ack id s [] known gone = gone
  detached_stays t hello_ack id s (now ∷ times) known gone =
      let seen = record s { last_seen = now } in
      let t' : Transport E = record t { sessions = insert id seen t.sessions } in
      subst
        (λ o.
          lookup id
            (visits (session_with t hello_ack now id o) hello_ack id times).registry.sessions
          ≡ none)
        (sym known)
        (detached_stays t' hello_ack id seen times (lookup-insert_self id seen t.sessions) gone)

  -- When the WebSocket of a node closes after the node has moved to long-polling, the registry has no
  -- session for it, and however often the node polls and pushes, it gets none.
  pub late_close_strands :
      (t : Transport E) (hello_ack : E) (id : String) (s : LpSession E) (times : List ℕ)
      → lookup id t.sessions ≡ some s
      → lookup id (visits (close_socket t id) hello_ack id times).registry.sessions ≡ none
  unfolding close_socket detach_session upsert
  late_close_strands t hello_ack id s times known =
      detached_stays (close_socket t id) hello_ack id s times known
        (ground (arith, lookup-delete id id t.registry.sessions, (eq_iff id id).1 refl))
