-- ===== src/Server/Inbound/Isolation.antt =====
-- channel.mjs: a node's messages concern the node alone.
use web_inspector.Contracts.Commands.{ResultStatus, Verb, dispatch_job}
use web_inspector.Control.Dispatcher.Held.{bucket-insert}
use web_inspector.Scheduler.Orchestrator.State.{Job}
use web_inspector.Control.Reboot.{Rebooter, on_reconnect, reconnect_with}
use web_inspector.Prelude.{
  List, String, [], some, ℕ, ◌∷◌, ◌≡◌, ◌≢◌, Option, arith, eq_iff, if_cases, none, option_cases,
  refl, sym, ◌∙◌, Result, All, ap, ◌==◌, string_eq, option_eq,
}
use web_inspector.Contracts.Nodes.{is_node_status}
use web_inspector.Prelude.Dict.{lookup, lookup-insert_ne, Dict, delete, lookup-delete, insert}
use web_inspector.Control.Registry.{
  Registry, attach_session, detach_session, heartbeat, id_of, register, set_status, upsert,
  RegistryError,
}
use web_inspector.Control.Dispatcher.{
  bucket, Dispatcher, is_terminal_result, on_command_result, note, Pending, category_of, send,
}
use web_inspector.Server.Inbound.{
  Hub, Inbound, Peer, handle_inbound, on_connection, on_socket_close, beat, command_result, hello,
  job_result, no_change, status_change, status_or, dispatch_job_of, run_dispatch,
}

-- What comes up the channel, in the order of arrival, and the dispatches that follow from it
pub data Arrival (S : Type 0) : Type 0 where
  connects : S → Arrival S
  disconnects : Arrival S
  sends : (now : ℕ) → Inbound → Arrival S
  dispatches : (command_id : String) → Arrival S

unfoldable pub arrive : {S : Type 0} → Hub S → Peer → Arrival S → Hub S
arrive hub peer (connects session) = on_connection hub peer session
arrive hub peer disconnects = on_socket_close hub peer
arrive hub peer (sends now m) = handle_inbound hub peer now m
arrive hub peer (dispatches command_id) = run_dispatch hub command_id

unfoldable pub arrive_all : {S : Type 0} → Hub S → Peer → List (Arrival S) → Hub S
arrive_all hub peer [] = hub
arrive_all hub peer (a ∷ rest) = arrive_all (arrive hub peer a) peer rest

-- The id of the session is its type and its name.
abbrev pub IsOwn : Peer → Type 0
IsOwn peer = id_of peer.node_name (some peer.node_type) ≡ peer.node_id

-- No dispatch takes the id of this command.
abbrev pub SparesId : {S : Type 0} → String → Arrival S → Type 0
SparesId command (dispatches command_id) = command_id ≢ command
SparesId command a = Unit

-- What the control plane holds of another node is as it was, and so is the command.
pub record Untouched {S : Type 0} (id name command : String) (old new : Hub S) : Type 0 where
  pub node : lookup id new.plant.registry.nodes ≡ lookup id old.plant.registry.nodes
  pub session : lookup id new.plant.registry.sessions ≡ lookup id old.plant.registry.sessions
  pub in_flight :
      lookup command (bucket new.plant.dispatcher (some name))
      ≡ lookup command (bucket old.plant.dispatcher (some name))
  pub reboot : lookup name new.plant.rebooter.pending ≡ lookup name old.plant.rebooter.pending

module _ (id name command : String) (peer : Peer) (own : IsOwn peer) (other_id : peer.node_id ≢ id)
    (other_name : peer.node_name ≢ name) where
  apart_of : (key : String) → key ≡ peer.node_id → key ≢ id
  apart_of key e h = other_id (sym e ∙ h)

  deleted :
      {V : Type 0} (key k : String) (m : Dict String V)
      → k ≢ key
      → lookup key (delete k m) ≡ lookup key m
  deleted key k m apart = ground (arith, apart, eq_iff k key, lookup-delete k key m)

  reconnected :
      (r : Rebooter)
      → lookup name ((on_reconnect r peer.node_name).0).pending ≡ lookup name r.pending
  unfolding on_reconnect
  reconnected r = by_timer (lookup peer.node_name r.pending)
    where
      by_timer :
          (o : Option ℕ)
          → lookup name ((reconnect_with r peer.node_name o).0).pending ≡ lookup name r.pending
      by_timer none = refl
      by_timer (some t) = deleted name peer.node_name r.pending other_name

  answered :
      (d : Dispatcher) (answer : String) (status : ResultStatus)
      → bucket ((on_command_result d (some peer.node_name) answer status).0) (some name)
        ≡ bucket d (some name)
  unfolding on_command_result
  answered d answer status =
      let own_bucket = bucket d (some peer.node_name) in
      option_cases
        (λ (r : Dispatcher × Option (Verb × ResultStatus)).
          bucket r.0 (some name) ≡ bucket d (some name))
        (lookup answer own_bucket) (λ _. refl)
        (λ p _.
          if_cases (λ (e : Dispatcher). bucket e (some name) ≡ bucket d (some name))
            (is_terminal_result status)
            (λ _.
              bucket-insert d (some name) (some peer.node_name) (delete answer own_bucket)
              ∙ ground
                  (arith, other_name, eq_iff {A = Option String} (some peer.node_name) (some name)))
            (λ _. refl))

  -- Another command that is noted, for any node.
  noted :
      (d : Dispatcher) (to : Option String) (command_id : String) (verb : Verb)
      → command_id ≢ command
      → lookup command (bucket (note d to command_id verb) (some name))
        ≡ lookup command (bucket d (some name))
  unfolding note
  noted d to command_id verb apart =
      let fresh : Pending = record { verb = verb; category = category_of verb } in
      ap (lookup command) (bucket-insert d (some name) to (insert command_id fresh (bucket d to)))
      ∙ if_cases
          (λ (m : Dict String Pending). lookup command m ≡ lookup command (bucket d (some name)))
          (to == some name)
          (λ same.
            lookup-insert_ne command_id command fresh (bucket d to) apart
            ∙ ap (λ t. lookup command (bucket d t))
                ((eq_iff {A = Option String} to (some name)).0 same))
          (λ _. refl)

  module _ {S : Type 0} where
    -- A step that changes nothing but the registry, and there nothing of the other node
    registry-Untouched :
        (hub : Hub S) (r : Registry S)
        → lookup id r.nodes ≡ lookup id hub.plant.registry.nodes
        → lookup id r.sessions ≡ lookup id hub.plant.registry.sessions
        → Untouched id name command hub (record hub { plant = record hub.plant { registry = r } })
    registry-Untouched hub r e f = record { node = e; session = f; in_flight = refl; reboot = refl }

    arrive-Untouched :
        (hub : Hub S) (a : Arrival S)
        → SparesId command a
        → Untouched id name command hub (arrive hub peer a)
    unfolding arrive run_dispatch send on_connection on_socket_close handle_inbound register
        heartbeat attach_session detach_session set_status upsert
    arrive-Untouched hub (dispatches command_id) spared = by_jobs hub.orchestrator.dispatching
      where
        by_jobs :
            (jobs : List Job) → Untouched id name command hub (dispatch_job_of hub command_id jobs)
        by_jobs [] = record { node = refl; session = refl; in_flight = refl; reboot = refl }
        by_jobs (job ∷ rest) = record {
          node = refl;
          session = refl;
          in_flight =
              noted hub.plant.dispatcher (some job.node_name) command_id dispatch_job spared;
          reboot = refl;
        }
    arrive-Untouched hub (connects session) spared =
        registry-Untouched hub _
          (lookup-insert_ne peer.node_id id _ hub.plant.registry.nodes other_id)
          (lookup-insert_ne peer.node_id id session hub.plant.registry.sessions other_id)
    arrive-Untouched hub disconnects spared =
        registry-Untouched hub _
          (lookup-insert_ne peer.node_id id _ hub.plant.registry.nodes other_id)
          (deleted id peer.node_id hub.plant.registry.sessions other_id)
    arrive-Untouched hub (sends now (hello versions)) spared = record {
      node =
          lookup-insert_ne (id_of peer.node_name (some peer.node_type)) id _
            hub.plant.registry.nodes (apart_of _ own);
      session = refl;
      in_flight = refl;
      reboot = reconnected hub.plant.rebooter;
    }
    arrive-Untouched hub (sends now (beat status versions)) spared =
        registry-Untouched hub _
          (lookup-insert_ne (id_of peer.node_name (some peer.node_type)) id _
            hub.plant.registry.nodes (apart_of _ own))
          refl
    arrive-Untouched hub (sends now (status_change none)) spared = record {
      node = refl;
      session = refl;
      in_flight = refl;
      reboot = refl;
    }
    arrive-Untouched hub (sends now (status_change (some status))) spared =
        let r = hub.plant.registry in
        let After : Result RegistryError (Registry S) → Type 0 = λ res.
          Untouched id name command hub
            (record hub { plant = record hub.plant { registry = status_or r res } }) in
        if_cases After (is_node_status status)
          (λ _.
            registry-Untouched hub (upsert r peer.node_id (λ n. record n { status = some status }))
              (lookup-insert_ne peer.node_id id _ r.nodes other_id) refl)
          (λ _. record { node = refl; session = refl; in_flight = refl; reboot = refl })
    arrive-Untouched hub (sends now (command_result answer status)) spared = record {
      node = refl;
      session = refl;
      in_flight = ap (lookup command) (answered hub.plant.dispatcher answer status);
      reboot = refl;
    }
    arrive-Untouched hub (sends now (job_result summary)) spared = record {
      node = refl;
      session = refl;
      in_flight = refl;
      reboot = refl;
    }
    arrive-Untouched hub (sends now no_change) spared = record {
      node = refl;
      session = refl;
      in_flight = refl;
      reboot = refl;
    }

    then-Untouched :
        (a b c : Hub S)
        → Untouched id name command a b
        → Untouched id name command b c
        → Untouched id name command a c
    then-Untouched a b c ab bc = record {
      node = bc.node ∙ ab.node;
      session = bc.session ∙ ab.session;
      in_flight = bc.in_flight ∙ ab.in_flight;
      reboot = bc.reboot ∙ ab.reboot;
    }

    -- Whatever a node whose session's id is made of its type and name does, connecting, disconnecting and
    -- sending any messages, and whatever dispatches of jobs follow, the registry's record and session of any
    -- other node and the pending reboot of one of another name are as they were, and so is any command in
    -- flight to it, or not in flight, whose id no dispatch takes.
    pub arrive_all-Untouched :
        (hub : Hub S) (arrivals : List (Arrival S))
        → All (SparesId command) arrivals
        → Untouched id name command hub (arrive_all hub peer arrivals)
    unfolding arrive_all
    arrive_all-Untouched hub [] spared = record {
      node = refl;
      session = refl;
      in_flight = refl;
      reboot = refl;
    }
    arrive_all-Untouched hub (a ∷ rest) spared =
        then-Untouched hub (arrive hub peer a) (arrive_all (arrive hub peer a) peer rest)
          (arrive-Untouched hub a spared.0) (arrive_all-Untouched (arrive hub peer a) rest spared.1)
