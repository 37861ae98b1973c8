-- ===== src/Control/Reboot/Grace.antt =====
-- reboot-manager.mjs: which timers are left when a node is back.
use web_inspector.Control.Registry.{RegistryError}
use web_inspector.Contracts.Commands.{reboot}
use web_inspector.Control.Dispatcher.{Dispatcher, send}
use web_inspector.Prelude.{
  All, String, eqb, exists, false, some, true, value, ℕ, ◌==◌, ◌≡◌, Bool-cases, List, Option,
  Result, [], ap, arith, eq_iff, if_cases, inl, inr, none, not, refl, throw, ◌∷◌, subst, sym, ◌∙◌,
  string_eq,
}
use web_inspector.Prelude.Dict.{lookup, Dict, insert, lookup-delete, lookup-insert_self}
use web_inspector.Control.Reboot.{
  Plant, Rebooter, Timer, is_rebooting, on_reconnect, reboot_node, clear_timer, node_id_named,
  reboot_with, reconnect_with,
}

-- Every timer that is set is the one that is pending for its node.
abbrev pub IsTracked : Rebooter → Type 0
IsTracked r = All (λ (t : Timer). lookup t.name r.pending ≡ some t.timer_id) r.timers

untimed :
    (pending : Dict String ℕ) (name : String) (ts : List Timer)
    → lookup name pending ≡ none
    → All (λ (t : Timer). lookup t.name pending ≡ some t.timer_id) ts
    → All (λ (t : Timer). (t.name == name) ≡ false) ts
untimed pending name [] e h = tt
untimed pending name (t ∷ ts) e h = (
  elim (Bool-cases (t.name == name)) [
    | inr differs ↦ differs
    | inl same ↦
        absurd (ground (arith, e, h.0, ap (λ n. lookup n pending) ((eq_iff t.name name).0 same)))
  ],
  untimed pending name ts e h.1,
)

cleared :
    (pending : Dict String ℕ) (name : String) (timer : ℕ) (ts : List Timer)
    → lookup name pending ≡ some timer
    → All (λ (t : Timer). lookup t.name pending ≡ some t.timer_id) ts
    → All (λ (t : Timer). (t.name == name) ≡ false) (clear_timer timer ts)
cleared pending name timer [] e h = tt
cleared pending name timer (t ∷ ts) e h =
    if_cases (All (λ (u : Timer). (u.name == name) ≡ false)) (not (eqb t.timer_id timer))
      (λ kept. (
        elim (Bool-cases (t.name == name)) [
          | inr differs ↦ differs
          | inl same ↦ absurd (
              ground
                (arith, kept, e, h.0, ap (λ n. lookup n pending) ((eq_iff t.name name).0 same)))
        ],
        cleared pending name timer ts e h.1,
      ))
      (λ _. cleared pending name timer ts e h.1)

-- After a node has reconnected, no timer for it is left, provided that every timer was the pending one
-- of its node: the grace period of a reboot that succeeded never marks the node as offline.
pub reconnect_clears :
    (r : Rebooter) (name : String)
    → IsTracked r
    → All (λ (t : Timer). (t.name == name) ≡ false) (on_reconnect r name).0.timers
unfolding on_reconnect
reconnect_clears r name tracked = go (lookup name r.pending) refl
  where
    go :
        (o : Option ℕ)
        → lookup name r.pending ≡ o
        → All (λ (t : Timer). (t.name == name) ≡ false) (reconnect_with r name o).0.timers
    go none e = untimed r.pending name r.timers e tracked
    go (some timer) e = cleared r.pending name timer r.timers e tracked

-- What a reboot that was sent leaves.
after_reboot :
    {S : Type 0} (p : Plant S) (name command_id : String) (timer : ℕ)
    → (reboot_node p name command_id timer).1 ≡ value tt
    → let r = (reboot_node p name command_id timer).0.rebooter in
      (r.pending ≡ insert name timer p.rebooter.pending)
      × ((id : Option String) × (r.timers
            ≡ record { timer_id = timer; name = name; node_id = id } ∷ p.rebooter.timers))
unfolding reboot_node
after_reboot {S} p name command_id timer done =
    go (send p.dispatcher p.registry (some name) command_id reboot) done
  where
    go :
        (r : Dispatcher × Result RegistryError S)
        → (reboot_with p name timer r).1 ≡ value tt
        → let q = (reboot_with p name timer r).0.rebooter in
          (q.pending ≡ insert name timer p.rebooter.pending)
          × ((id : Option String) × (q.timers
                ≡ record { timer_id = timer; name = name; node_id = id } ∷ p.rebooter.timers))
    go (d, throw e) h = absurd (ground arith)
    go (d, value s) h = (refl, (node_id_named p.registry name, refl))

leaks_from :
    (q : Rebooter) (name : String) (newer older : Timer) (rest : List Timer)
    → lookup name q.pending ≡ some newer.timer_id
    → q.timers ≡ newer ∷ older ∷ rest
    → eqb older.timer_id newer.timer_id ≡ false
    → let back = (on_reconnect q name).0 in
      (exists (λ (t : Timer). eqb t.timer_id older.timer_id) back.timers ≡ true)
      × (is_rebooting back name ≡ false)
unfolding on_reconnect
leaks_from q name newer older rest e ts differ =
    let back = (λ (r : Rebooter).
      (exists (λ (t : Timer). eqb t.timer_id older.timer_id) r.timers ≡ true)
      × (is_rebooting r name ≡ false)) in
    subst (λ (o : Option ℕ). back (reconnect_with q name o).0) (sym e)
      (
        subst
            (λ l.
              exists (λ (t : Timer). eqb t.timer_id older.timer_id) (clear_timer newer.timer_id l)
              ≡ true)
            (sym ts) (ground (arith, differ)),
        ground (arith, lookup-delete name name q.pending, (eq_iff name name).1 refl),
      )

-- A node that is rebooted twice and then reconnects keeps the timer of the first reboot, although no
-- reboot is pending any more.
pub second_reboot_leaks :
    {S : Type 0} (p : Plant S) (name first_command second_command : String) (first second : ℕ)
    → eqb first second ≡ false
    → (reboot_node p name first_command first).1 ≡ value tt
    → (reboot_node (reboot_node p name first_command first).0 name second_command second).1
      ≡ value tt
    → let back =
        (on_reconnect
          (reboot_node
            (reboot_node p name first_command first).0
            name
            second_command
            second).0.rebooter
          name).0 in
      (exists (λ (t : Timer). eqb t.timer_id first) back.timers ≡ true)
      × (is_rebooting back name ≡ false)
second_reboot_leaks p name first_command second_command first second differ done again =
    let once = after_reboot p name first_command first done in
    let twice =
      after_reboot (reboot_node p name first_command first).0 name second_command second again in
    let (id1, t1) = once.1 in
    let (id2, t2) = twice.1 in
    leaks_from
      (reboot_node (reboot_node p name first_command first).0 name second_command second).0.rebooter
      name (record { timer_id = second; name = name; node_id = id2 })
      (record { timer_id = first; name = name; node_id = id1 }) p.rebooter.timers
      (ap (lookup name) twice.0
        ∙ lookup-insert_self name second
            (reboot_node p name first_command first).0.rebooter.pending)
      (t2 ∙ ap (λ ts. record { timer_id = second; name = name; node_id = id2 } ∷ ts) t1) differ
