-- ===== src/Control/Reconciler/Single.antt =====
-- reconciler.mjs: no node is sent an update while another is in flight.
use web_inspector.Bundles.Registry.{Bundles, data_ref}
use web_inspector.Control.Registry.{Node, RegistryError, list_connected, session_for}
use web_inspector.Control.UpdateManager.{UpdateManager, pick_rollout_batch}
use web_inspector.Control.Reconciler.{
  Plane, Step, after_send, converge, drain_one, each, needs_update, reconcile_once, send_command,
  then_do, update_batch, update_one, update_verb, version_field, drains,
}
use web_inspector.Prelude.{
  Bool, List, Option, String, [], arith, exists, false, filter_by, if_cases, if◌then◌else◌, length,
  refl, subst, sym, ℕ, ◌&&◌, ◌+◌, ◌==◌, ◌∷◌, ◌≡◌, ◌≤◌, Result, get_or, map, none, not, result_cases,
  some, throw, truthy, value, Bool-cases, inl, inr, true, ◌⊎◌, string_eq, option_eq,
}
use web_inspector.Prelude.Dict.{Dict, insert, values}
use web_inspector.Contracts.Versions.{version_of}
use web_inspector.Contracts.Commands.{Verb, drain, undrain}
use web_inspector.Control.Dispatcher.{
  Dispatcher, Pending, bucket, category_of, has_in_flight_command, note, send,
}
use web_inspector.Control.Dispatcher.Held.{bucket-insert}

abbrev pub is_update : Pending → Bool
is_update p = p.category == "update"

-- The updates that are in flight to a node
abbrev pub updates_of : Dispatcher → Option String → ℕ
updates_of d name = length (filter_by is_update (values (bucket d name)))

-- No node has two updates in flight.
abbrev pub IsSingle : Dispatcher → Type 0
IsSingle d = (name : Option String) → updates_of d name ≤ 1

none_in_flight :
    (l : List Pending) → exists is_update l ≡ false → length (filter_by is_update l) ≡ 0
none_in_flight [] h = refl
none_in_flight (p ∷ l) h = ground (arith, h, none_in_flight l (ground (arith, h)))

insert_counts :
    (id : String) (p : Pending) (m : Dict String Pending)
    → length (filter_by is_update (values (insert id p m)))
      ≤ length (filter_by is_update (values m)) + (if is_update p then 1 else 0)
unfolding insert
insert_counts id p [] = ground arith
insert_counts id p ((k, q) ∷ m) = ground (arith, insert_counts id p m)

-- A command that is noted, if it is no update or its node has none in flight
note-IsSingle :
    (d : Dispatcher) (name : Option String) (id : String) (verb : Verb)
    → ((category_of verb == "update") && has_in_flight_command d name "update") ≡ false
    → IsSingle d
    → IsSingle (note d name id verb)
unfolding note has_in_flight_command
note-IsSingle d name id verb fits single other =
    let fresh : Pending = record { verb = verb; category = category_of verb } in
    subst (λ m. length (filter_by is_update (values m)) ≤ 1)
      (sym (bucket-insert d other name (insert id fresh (bucket d name))))
      (if_cases (λ (m : Dict String Pending). length (filter_by is_update (values m)) ≤ 1)
        (name == other) (λ _. here (Bool-cases (category_of verb == "update"))) (λ _. single other))
  where
    here :
        ((category_of verb == "update") ≡ true) ⊎ ((category_of verb == "update") ≡ false)
        → length (
            filter_by is_update (
              values
                (insert id (record { verb = verb; category = category_of verb }) (bucket d name))))
          ≤ 1
    here (inl h1) =
        let empty = none_in_flight (values (bucket d name)) (ground (arith, h1, fits)) in
        let grown =
          insert_counts id (record { verb = verb; category = category_of verb }) (bucket d name) in
        ground (arith, h1, empty, grown)
    here (inr h0) =
        let old = single name in
        let grown =
          insert_counts id (record { verb = verb; category = category_of verb }) (bucket d name) in
        ground (arith, h0, old, grown)

-- A step that leaves no node with two updates in flight.
abbrev pub StaysSingle : {S : Type 0} → Step S → Type 0
StaysSingle s = IsSingle (s.0).dispatcher

module _ {S : Type 0} where
  then_do-StaysSingle :
      (s : Step S) (f : Plane S → Step S)
      → StaysSingle s
      → ((p : Plane S) → IsSingle p.dispatcher → StaysSingle (f p))
      → StaysSingle (then_do s f)
  then_do-StaysSingle (p, none) f single next = next p single
  then_do-StaysSingle (p, some e) f single next = single

  each-StaysSingle :
      {A : Type 0} (f : Plane S → A → Step S)
      → ((p : Plane S) (x : A) → IsSingle p.dispatcher → StaysSingle (f p x))
      → (p : Plane S) (xs : List A) → IsSingle p.dispatcher
      → StaysSingle (each f p xs)
  unfolding each
  each-StaysSingle f one p [] single = single
  each-StaysSingle f one p (x ∷ xs) single =
      then_do-StaysSingle (f p x) (λ q. each f q xs) (one p x single)
        (λ q h. each-StaysSingle f one q xs h)

  module _ (command_id : ℕ → String) where
    send_command-StaysSingle :
        (p : Plane S) (name : Option String) (verb : Verb)
        → ((category_of verb == "update") && has_in_flight_command p.dispatcher name "update")
          ≡ false
        → IsSingle p.dispatcher
        → StaysSingle (send_command command_id p name verb)
    unfolding send_command send
    send_command-StaysSingle p name verb fits single = by_send (session_for p.registry name none)
      where
        noted : Dispatcher
        noted = note p.dispatcher name (command_id p.issued) verb

        by_send : (r : Result RegistryError S) → StaysSingle (after_send p name verb (noted, r))
        by_send (value session) =
            note-IsSingle p.dispatcher name (command_id p.issued) verb fits single
        by_send (throw e) = note-IsSingle p.dispatcher name (command_id p.issued) verb fits single

    module _ (bundles : Bundles) where
      update_one-StaysSingle :
          (component version : String) (p : Plane S) (name : Option String)
          → IsSingle p.dispatcher
          → StaysSingle (update_one command_id bundles component version p name)
      unfolding update_one
      update_one-StaysSingle component version p name single =
          if_cases StaysSingle (has_in_flight_command p.dispatcher name "update") (λ _. single)
            (λ free.
              result_cases StaysSingle (data_ref bundles component version)
                (λ ref _.
                  send_command-StaysSingle p name (update_verb component) (ground (arith, free))
                    single)
                (λ e _. single))

      converge-StaysSingle :
          (nodes : List Node) (component : String) (p : Plane S)
          → IsSingle p.dispatcher
          → StaysSingle (converge command_id bundles nodes component p)
      unfolding converge
      converge-StaysSingle nodes component p single =
          let desired = version_of (version_field component) p.updates.desired in
          let version = get_or desired "" in
          let needing =
            map (λ (n : Node). n.node_name)
              (filter_by (needs_update component p.updates.desired) nodes) in
          if_cases StaysSingle (truthy desired)
            (λ _. by_batch version (pick_rollout_batch p.updates component version needing))
            (λ _. single)
        where
          by_batch :
              (version : String) (b : List (Option String) × UpdateManager)
              → StaysSingle (update_batch command_id bundles component version p b)
          by_batch version (batch, updates) =
              each-StaysSingle (update_one command_id bundles component version)
                (λ q name h. update_one-StaysSingle component version q name h)
                (record p { updates = updates }) batch single

      module _ (wants_drain : Option String → Bool) where
        drain_one-StaysSingle :
            (p : Plane S) (n : Node)
            → IsSingle p.dispatcher
            → StaysSingle (drain_one command_id bundles wants_drain p n)
        unfolding drain_one
        drain_one-StaysSingle p n single =
            if_cases StaysSingle (wants_drain n.node_name && not (drains n))
              (λ _. send_command-StaysSingle p n.node_name drain refl single)
              (λ _.
                if_cases StaysSingle (not (wants_drain n.node_name) && drains n)
                  (λ _. send_command-StaysSingle p n.node_name undrain refl single) (λ _. single))

        -- If no node has two updates in flight before a round, none has after it, however many components
        -- and nodes the round goes through, whatever the ids of its commands, and where it breaks off.
        pub reconcile_once-StaysSingle :
            (p : Plane S)
            → IsSingle p.dispatcher
            → StaysSingle (reconcile_once command_id bundles wants_drain p)
        unfolding reconcile_once
        reconcile_once-StaysSingle p single =
            let nodes = list_connected p.registry in
            then_do-StaysSingle (converge command_id bundles nodes "control-plane-agent" p) _
              (converge-StaysSingle nodes "control-plane-agent" p single)
              (λ q h.
                then_do-StaysSingle (converge command_id bundles nodes "agent" q) _
                  (converge-StaysSingle nodes "agent" q h)
                  (λ r k.
                    each-StaysSingle (drain_one command_id bundles wants_drain)
                      (λ s n l. drain_one-StaysSingle s n l) r nodes k))
