-- ===== src/Supervisor/Connection/Order.antt =====
-- connection.mjs: the envelopes go up in order.
use web_inspector.Prelude.{
  Bool, List, [], arith, if◌then◌else◌, length, list_append_nil, ltb, refl, sym, true, ◌++◌, ◌||◌,
  ◌∙◌, ◌∷◌, ◌≡◌, ◌≤◌, ap, false, if_cases, length-append, list_append_assoc, not, subst, ◌<◌, leb,
  suc, ◌&&◌, ℕ,
}
use web_inspector.Supervisor.Connection.{
  Connection, PushAnswer, Wanted, can_write, close, flush_ws, is_auto, is_longpoll, longpoll,
  new_connection, on_close, on_open, on_push, push_first, refused, send_raw, start_long_poll, taken,
  unauthorized,
}

pub data Event (E : Type 0) : Type 0 where
  send_event : E → Event E
  open_event : Event E
  close_event : (opened : Bool) → Event E
  push_event : PushAnswer → Event E
  shut_event : Event E

module _ {E : Type 0} where
  unfoldable pub step : Connection E → Event E → Connection E
  step c (send_event e) = send_raw c e
  step c open_event = on_open c
  step c (close_event opened) = on_close c opened
  step c (push_event answer) = on_push c answer
  step c shut_event = close c

  unfoldable pub steps : Connection E → List (Event E) → Connection E
  steps c [] = c
  steps c (x ∷ xs) = steps (step c x) xs

  -- An envelope is accepted unless it has to be buffered and the buffer is full.
  abbrev pub accepts : Connection E → Bool
  accepts c = can_write c || ltb (length c.outbox) 1000

  -- The envelopes that are accepted, in order.
  unfoldable pub accepted : Connection E → List (Event E) → List E
  accepted c [] = []
  accepted c (send_event e ∷ xs) =
      let rest = accepted (step c (send_event e)) xs in if accepts c then e ∷ rest else rest
  accepted c (x ∷ xs) = accepted (step c x) xs

  abbrev pub accounted : Connection E → List E
  accounted c = c.sent ++ c.outbox

  -- The buffer is bounded, and empty while the socket takes envelopes.
  pub record Inv (c : Connection E) : Type 0 where
    pub bounded : length c.outbox ≤ 1000
    pub drained : can_write c ≡ true → c.outbox ≡ []

  -- What an event accounts for.
  Accounts : Connection E → List E → Connection E → Type 0
  Accounts c es c' = (accounted c' ≡ accounted c ++ es) × Inv c'

  idle-Accounts : (c c' : Connection E) → accounted c' ≡ accounted c → Inv c' → Accounts c [] c'
  unfolding Accounts
  idle-Accounts c c' e inv = (e ∙ sym (list_append_nil (accounted c)), inv)

  put_last : (s o : List E) (e : E) → o ≡ [] → (s ++ (e ∷ [])) ++ o ≡ (s ++ o) ++ (e ∷ [])
  put_last s o e q =
      ap (λ l. (s ++ (e ∷ [])) ++ l) q
      ∙ list_append_nil (s ++ (e ∷ []))
      ∙ ap (λ l. l ++ (e ∷ [])) (sym (list_append_nil s) ∙ ap (λ l. s ++ l) (sym q))

  send-Accounts :
      (c : Connection E) (e : E)
      → Inv c
      → Accounts c (if accepts c then e ∷ [] else []) (send_raw c e)
  unfolding send_raw Accounts
  send-Accounts c e inv =
      let Sent : Connection E → Type 0 = λ c'. Accounts c (if accepts c then e ∷ [] else []) c' in
      let one =
        λ (yes : accepts c ≡ true). ap (λ b. accounted c ++ (if b then e ∷ [] else [])) (sym yes) in
      if_cases Sent (can_write c)
        (λ w. (
          put_last c.sent c.outbox e (inv.drained w) ∙ one (ground arith),
          record { bounded = inv.bounded; drained = inv.drained },
        ))
        (λ closed_now.
          if_cases Sent (ltb (length c.outbox) 1000)
            (λ room. (
              sym (list_append_assoc c.sent c.outbox (e ∷ [])) ∙ one (ground arith),
              record {
                bounded = omega (arith, length-append c.outbox (e ∷ []), lt_of room);
                drained = λ w. absurd (ground (arith, closed_now, w));
              },
            ))
            (λ full. (
              sym (list_append_nil (accounted c))
                  ∙ ap (λ b. accounted c ++ (if b then e ∷ [] else []))
                      (sym (full_up closed_now full)),
              inv,
            )))
    where
      lt_of : ltb (length c.outbox) 1000 ≡ true → length c.outbox < 1000
      lt_of h = ground arith

      full_up : can_write c ≡ false → ltb (length c.outbox) 1000 ≡ false → accepts c ≡ false
      full_up h k = ground arith

  open-Accounts : (c : Connection E) → Inv c → Accounts c [] (on_open c)
  unfolding on_open flush_ws
  open-Accounts c inv =
      idle-Accounts c (on_open c) (list_append_nil (c.sent ++ c.outbox))
        (record { bounded = omega arith; drained = λ h. refl })

  -- An event that leaves the envelopes where they are, and the socket unable to take one.
  kept-Accounts :
      (c c' : Connection E)
      → Inv c
      → c'.sent ≡ c.sent
      → c'.outbox ≡ c.outbox
      → can_write c' ≡ false
      → Accounts c [] c'
  kept-Accounts c c' inv s o shut =
      idle-Accounts c c' (ap (λ l. l ++ c'.outbox) s ∙ ap (λ l. c.sent ++ l) o) (record {
        bounded = subst (λ l. length l ≤ 1000) (sym o) inv.bounded;
        drained = λ h. absurd (ground (arith, shut, h));
      })

  no_socket : (c : Connection E) → c.socket_open ≡ false → can_write c ≡ false
  no_socket c h = ground arith

  close-Accounts : (c : Connection E) (opened : Bool) → Inv c → Accounts c [] (on_close c opened)
  unfolding on_close start_long_poll
  close-Accounts c opened inv =
      let Closed : Connection E → Type 0 = λ c'. Accounts c [] c' in
      let gone = record c { socket_open = false } in
      let counted = record gone { failures = suc c.failures } in
      if_cases Closed c.closed (λ _. stays gone refl refl refl)
        (λ _.
          if_cases Closed (not opened && is_auto c.wanted)
            (λ _.
              if_cases Closed (leb c.failover_after (suc c.failures))
                (λ _.
                  if_cases Closed c.closed (λ _. stays counted refl refl refl)
                    (λ _. stays (record counted { mode = longpoll; attempt = 0 }) refl refl refl))
                (λ _. stays (record counted { attempt = suc c.attempt }) refl refl refl))
            (λ _. stays (record gone { attempt = suc c.attempt }) refl refl refl))
    where
      stays :
          (c' : Connection E)
          → c'.sent ≡ c.sent
          → c'.outbox ≡ c.outbox
          → c'.socket_open ≡ false
          → Accounts c [] c'
      stays c' s o shut = kept-Accounts c c' inv s o (no_socket c' shut)

  pushed-Accounts :
      (c : Connection E) (answer : PushAnswer) (o : List E)
      → is_longpoll c.mode ≡ true
      → c.outbox ≡ o
      → Inv c
      → Accounts c [] (push_first c answer o)
  pushed-Accounts c answer [] m q inv = idle-Accounts c c refl inv
  pushed-Accounts c taken (e ∷ rest) m q inv =
      idle-Accounts c _ (list_append_assoc c.sent (e ∷ []) rest ∙ ap (λ l. c.sent ++ l) (sym q))
        (record {
          bounded = omega (arith, ap length q, inv.bounded);
          drained = λ h. absurd (ground (arith, m, h));
        })
  pushed-Accounts c unauthorized (e ∷ rest) m q inv =
      idle-Accounts c _ refl (record { bounded = inv.bounded; drained = inv.drained })
  pushed-Accounts c refused (e ∷ rest) m q inv = idle-Accounts c c refl inv

  push-Accounts :
      (c : Connection E) (answer : PushAnswer) → Inv c → Accounts c [] (on_push c answer)
  unfolding on_push
  push-Accounts c answer inv =
      if_cases (λ c'. Accounts c [] c') (c.closed || not (is_longpoll c.mode))
        (λ _. idle-Accounts c c refl inv)
        (λ goes. pushed-Accounts c answer c.outbox (ground arith) refl inv)

  shut-Accounts : (c : Connection E) → Inv c → Accounts c [] (close c)
  unfolding close
  shut-Accounts c inv = kept-Accounts c (close c) inv refl refl (no_socket (close c) refl)

  -- An event accounts for the envelopes it accepts, and the events after it for theirs.
  then_steps :
      (c : Connection E) (es rest : List E) (c' : Connection E) (xs : List (Event E))
      → Accounts c es c'
      → accounted (steps c' xs) ≡ accounted c' ++ rest
      → accounted (steps c' xs) ≡ accounted c ++ (es ++ rest)
  unfolding Accounts
  then_steps c es rest c' xs (e, inv) ih =
      ih ∙ ap (λ l. l ++ rest) e ∙ list_append_assoc (accounted c) es rest

  steps_lem :
      (c : Connection E) (xs : List (Event E))
      → Inv c
      → (accounted (steps c xs) ≡ accounted c ++ accepted c xs) × Inv (steps c xs)
  unfolding steps accepted step Accounts
  steps_lem c [] inv = (sym (list_append_nil (accounted c)), inv)
  steps_lem c (send_event e ∷ xs) inv =
      let done = send-Accounts c e inv in
      let (ih, after) = steps_lem (send_raw c e) xs done.1 in
      (
        then_steps c (if accepts c then e ∷ [] else []) (accepted (send_raw c e) xs) (send_raw c e)
              xs done ih
            ∙ ap (λ l. accounted c ++ l) (one_more (accepts c) e (accepted (send_raw c e) xs)),
        after,
      )
    where
      one_more :
          (b : Bool) (e : E) (l : List E)
          → (if b then e ∷ [] else []) ++ l ≡ (if b then e ∷ l else l)
      one_more true e l = refl
      one_more false e l = refl
  steps_lem c (open_event ∷ xs) inv =
      let done = open-Accounts c inv in
      let (ih, after) = steps_lem (on_open c) xs done.1 in
      (then_steps c [] (accepted (on_open c) xs) (on_open c) xs done ih, after)
  steps_lem c (close_event opened ∷ xs) inv =
      let done = close-Accounts c opened inv in
      let (ih, after) = steps_lem (on_close c opened) xs done.1 in
      (then_steps c [] (accepted (on_close c opened) xs) (on_close c opened) xs done ih, after)
  steps_lem c (push_event answer ∷ xs) inv =
      let done = push-Accounts c answer inv in
      let (ih, after) = steps_lem (on_push c answer) xs done.1 in
      (then_steps c [] (accepted (on_push c answer) xs) (on_push c answer) xs done ih, after)
  steps_lem c (shut_event ∷ xs) inv =
      let done = shut-Accounts c inv in
      let (ih, after) = steps_lem (close c) xs done.1 in
      (then_steps c [] (accepted (close c) xs) (close c) xs done ih, after)

  -- The envelopes that were sent, followed by those that are buffered, are the envelopes the channel
  -- accepted, each once and in order, whatever the network does; at most 1000 are buffered.
  pub goes_up_in_order :
      (wanted : Wanted) (failover_after : ℕ) (xs : List (Event E))
      → let c = steps (new_connection wanted failover_after) xs in
        (c.sent ++ c.outbox ≡ accepted (new_connection wanted failover_after) xs)
        × (length c.outbox ≤ 1000)
  goes_up_in_order wanted failover_after xs =
      let (e, inv) =
        steps_lem (new_connection wanted failover_after) xs
          (record { bounded = omega arith; drained = λ h. refl }) in
      (e, inv.bounded)
