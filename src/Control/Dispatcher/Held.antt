-- ===== src/Control/Dispatcher/Held.antt =====
-- dispatcher.mjs: how long a command holds its category.
use web_inspector.Control.Registry.{Registry}
use web_inspector.Prelude.{
  List, Option, String, [], arith, false, if◌then◌else◌, some, ◌==◌, ◌∷◌, ◌≡◌, All, Bool, ap,
  eq_iff, exists, if_cases, option_cases, refl, sym, true, ◌∙◌, string_eq, option_eq,
}
use web_inspector.Prelude.Dict.{
  Dict, insert, lookup, lookup-insert, lookup-insert_ne, values, delete, lookup-delete,
  lookup-insert_self,
}
use web_inspector.Contracts.Commands.{ResultStatus, Verb}
use web_inspector.Control.Dispatcher.{
  Dispatcher, Pending, bucket, is_terminal_result, note, on_command_result, category_of,
  has_in_flight_command, send,
}

-- The calls of the dispatcher; what a send does to its state does not depend on the registry.
pub data Call : Type 0 where
  send_call : (name : Option String) (id : String) → Verb → Call
  result_call : (name : Option String) (id : String) → ResultStatus → Call

unfoldable pub call : Dispatcher → Call → Dispatcher
call d (send_call name id verb) = note d name id verb
call d (result_call name id status) = (on_command_result d name id status).0

unfoldable pub calls : Dispatcher → List Call → Dispatcher
calls d [] = d
calls d (c ∷ cs) = calls (call d c) cs

-- A call that leaves a command in flight: another command's, or an interim result.
abbrev pub Leaves : Option String → String → Call → Type 0
Leaves name id (send_call other k verb) = ((name ≡ other) × (id ≡ k)) → ⊥
Leaves name id (result_call other k status) =
    ((name ≡ other) × (id ≡ k)) → is_terminal_result status ≡ false

-- The command is in flight in a category.
abbrev Holds : Option String → String → String → Dispatcher → Type 0
Holds name id category d =
    (p : Pending) × (lookup id (bucket d name) ≡ some p) × (p.category ≡ category)

pub bucket-insert :
    (d : Dispatcher) (name other : Option String) (m : Dict String Pending)
    → bucket (record { in_flight = insert other m d.in_flight }) name
      ≡ (if other == name then m else bucket d name)
unfolding bucket
bucket-insert d name other m = ground (arith, lookup-insert other name m d.in_flight)

-- What is found in a bucket after another, or the same one, was replaced.
found_after :
    (d : Dispatcher) (name other : Option String) (m : Dict String Pending) (id : String)
    (p : Pending)
    → (other ≡ name → lookup id m ≡ some p)
    → lookup id (bucket d name) ≡ some p
    → lookup id (bucket (record { in_flight = insert other m d.in_flight }) name) ≡ some p
found_after d name other m id p replaced kept =
    ap (λ b. lookup id b) (bucket-insert d name other m)
    ∙ if_cases (λ (b : Dict String Pending). lookup id b ≡ some p) (other == name)
        (λ same. replaced ((eq_iff other name).0 same)) (λ _. kept)

note-Holds :
    (d : Dispatcher) (name other : Option String) (id k category : String) (verb : Verb)
    → (((name ≡ other) × (id ≡ k)) → ⊥)
    → Holds name id category d
    → Holds name id category (note d other k verb)
unfolding note
note-Holds d name other id k category verb apart (p, found, c) =
    let fresh : Pending = record { verb = verb; category = category_of verb } in
    let m = insert k fresh (bucket d other) in
    (
      p,
      found_after d name other m id p
          (λ same.
            lookup-insert_ne k id fresh (bucket d other) (λ e. apart (sym same, sym e))
            ∙ ap (λ n. lookup id (bucket d n)) same
            ∙ found)
          found,
      c,
    )

result-Holds :
    (d : Dispatcher) (name other : Option String) (id k category : String) (status : ResultStatus)
    → (((name ≡ other) × (id ≡ k)) → is_terminal_result status ≡ false)
    → Holds name id category d
    → Holds name id category (on_command_result d other k status).0
unfolding on_command_result
result-Holds d name other id k category status interim (p, found, c) =
    option_cases (λ (r : Dispatcher × Option (Verb × ResultStatus)). Holds name id category r.0)
      (lookup k (bucket d other)) (λ _. (p, found, c))
      (λ q _.
        if_cases (Holds name id category) (is_terminal_result status)
          (λ ends. (
            p,
            found_after d name other (delete k (bucket d other)) id p
                (λ same.
                  lookup-delete k id (bucket d other)
                  ∙ if_cases (λ (o : Option Pending). o ≡ some p) (k == id)
                      (λ hit.
                        absurd
                          (ground (arith, ends, interim (sym same, sym ((eq_iff k id).0 hit)))))
                      (λ _. ap (λ n. lookup id (bucket d n)) same ∙ found))
                found,
            c,
          ))
          (λ _. (p, found, c)))

call-Holds :
    (d : Dispatcher) (name : Option String) (id category : String) (x : Call)
    → Leaves name id x
    → Holds name id category d
    → Holds name id category (call d x)
unfolding call
call-Holds d name id category (send_call other k verb) l h =
    note-Holds d name other id k category verb l h
call-Holds d name id category (result_call other k status) l h =
    result-Holds d name other id k category status l h

calls-Holds :
    (d : Dispatcher) (name : Option String) (id category : String) (xs : List Call)
    → All (Leaves name id) xs
    → Holds name id category d
    → Holds name id category (calls d xs)
unfolding calls
calls-Holds d name id category [] l h = h
calls-Holds d name id category (x ∷ xs) l h =
    calls-Holds (call d x) name id category xs l.1 (call-Holds d name id category x l.0 h)

exists-lookup :
    (test : Pending → Bool) (id : String) (m : Dict String Pending) (p : Pending)
    → lookup id m ≡ some p
    → test p ≡ true
    → exists test (values m) ≡ true
unfolding lookup
exists-lookup test id [] p e t = absurd (ground arith)
exists-lookup test id ((k, q) ∷ m) p e t = ground (arith, exists-lookup test id m p)

-- A command that was sent holds its category at its node, whether the registry had a session for it
-- or threw, and whatever is sent and reported afterwards, until a terminal result of that command
-- arrives from that node or the same id is sent to it again.
pub held_until_settled :
    {S : Type 0} (d : Dispatcher) (r : Registry S) (name : Option String) (id : String)
    (verb : Verb) (xs : List Call)
    → All (Leaves name id) xs
    → has_in_flight_command (calls (send d r name id verb).0 xs) name (category_of verb) ≡ true
unfolding has_in_flight_command send note
held_until_settled d r name id verb xs l =
    let pending : Pending = record { verb = verb; category = category_of verb } in
    let m = insert id pending (bucket d name) in
    let begun : Holds name id (category_of verb) (note d name id verb) = (
      pending,
      ap (λ b. lookup id b) (bucket-insert d name name m)
          ∙ if_cases (λ (b : Dict String Pending). lookup id b ≡ some pending) (name == name)
              (λ _. lookup-insert_self id pending (bucket d name))
              (λ differs. absurd (ground (arith, differs, (eq_iff name name).1 refl))),
      refl,
    ) in
    let (p, found, c) = calls-Holds (note d name id verb) name id (category_of verb) xs l begun in
    exists-lookup (λ q. q.category == category_of verb) id
      (bucket (calls (note d name id verb) xs) name) p found
      ((eq_iff p.category (category_of verb)).1 c)
