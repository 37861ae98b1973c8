-- ===== src/Server/LongPoll/Delivery.antt =====
-- channel.mjs: what a long-poll session delivers.
use web_inspector.Prelude.{
  List, [], ℕ, ◌++◌, ◌∷◌, ◌≡◌, ap, arith, if_cases, list_append_assoc, list_append_nil, none, not,
  option_cases, refl, some, subst, sym, true, ◌∙◌,
}
use web_inspector.Server.LongPoll.{
  LpSession, flush_waiter, hang_up, poll, send_down, time_out, answer, is_nil, is_waiting,
  new_session, release,
}

-- What happens to a session, in any order.
pub data Event (E : Type 0) : Type 0 where
  sent : E → Event E
  polled : (req : ℕ) → Event E
  timed_out : (req : ℕ) → Event E
  hung_up : (req : ℕ) → Event E

module _ {E : Type 0} where
  unfoldable pub step : LpSession E → Event E → LpSession E
  step s (sent e) = send_down s e
  step s (polled req) = poll s req
  step s (timed_out req) = time_out s req
  step s (hung_up req) = hang_up s req

  unfoldable pub steps : LpSession E → List (Event E) → LpSession E
  steps s [] = s
  steps s (e ∷ es) = steps (step s e) es

  -- The messages that were sent.
  abbrev pub messages : List (Event E) → List E
  messages [] = []
  messages (sent e ∷ es) = e ∷ messages es
  messages (_ ∷ es) = messages es

  -- The bodies of the answers, one after the other.
  abbrev pub bodies : List (ℕ × List E) → List E
  bodies [] = []
  bodies ((req, body) ∷ rs) = body ++ bodies rs

  -- What was answered, and what waits.
  abbrev pub accounted : LpSession E → List E
  accounted s = bodies s.responses ++ s.queue

  bodies-append :
      (rs : List (ℕ × List E)) (req : ℕ) (body : List E)
      → bodies (rs ++ ((req, body) ∷ [])) ≡ bodies rs ++ body
  bodies-append [] req body = list_append_nil body
  bodies-append ((r, b) ∷ rs) req body =
      ap (λ l. b ++ l) (bodies-append rs req body) ∙ sym (list_append_assoc b (bodies rs) body)

  -- Two sessions that account for the same messages, the first with none waiting while a poll is open.
  IsFlushed : LpSession E → List E → Type 0
  IsFlushed s es = (accounted s ≡ es) × ((req : ℕ) → s.waiter ≡ some req → s.queue ≡ [])

  is_nil-eq : (es : List E) → is_nil es ≡ true → es ≡ []
  is_nil-eq [] h = refl
  is_nil-eq (e ∷ es) h = absurd (ground arith)

  -- All that is queued is answered.
  answer_all :
      (s : LpSession E) (req : ℕ)
      → accounted (answer (record s { waiter = none; queue = [] }) req s.queue) ≡ accounted s
  answer_all s req =
      list_append_nil (bodies (s.responses ++ ((req, s.queue) ∷ [])))
      ∙ bodies-append s.responses req s.queue

  -- An empty answer accounts for nothing.
  answer_none : (s : LpSession E) (req : ℕ) → accounted (answer s req []) ≡ accounted s
  answer_none s req =
      ap (λ l. l ++ s.queue)
        (bodies-append s.responses req [] ∙ list_append_nil (bodies s.responses))

  flush-IsFlushed : (s : LpSession E) → IsFlushed (flush_waiter s) (accounted s)
  unfolding flush_waiter IsFlushed
  flush-IsFlushed s =
      option_cases (λ q. IsFlushed q (accounted s)) s.waiter
        (λ none_waits. (refl, λ req h. absurd (ground arith)))
        (λ req waits.
          if_cases (λ q. IsFlushed q (accounted s)) (is_nil s.queue)
            (λ empty_now. (refl, λ r h. is_nil-eq s.queue empty_now))
            (λ _. (answer_all s req, λ r h. absurd (ground arith))))

  send-IsFlushed : (s : LpSession E) (e : E) → IsFlushed (send_down s e) (accounted s ++ (e ∷ []))
  unfolding send_down IsFlushed
  send-IsFlushed s e =
      let flushed = flush-IsFlushed (record s { queue = s.queue ++ (e ∷ []) }) in
      (flushed.0 ∙ sym (list_append_assoc (bodies s.responses) s.queue (e ∷ [])), flushed.1)

  accounted-release :
      (s : LpSession E) → (accounted (release s) ≡ accounted s) × ((release s).queue ≡ s.queue)
  unfolding release
  accounted-release s =
      option_cases (λ q. (accounted q ≡ accounted s) × (q.queue ≡ s.queue)) s.waiter
        (λ _. (refl, refl)) (λ req _. (answer_none s req, refl))

  poll-IsFlushed :
      (s : LpSession E) (req : ℕ) → IsFlushed s (accounted s) → IsFlushed (poll s req) (accounted s)
  unfolding poll IsFlushed
  poll-IsFlushed s req h =
      if_cases (λ q. IsFlushed q (accounted s)) (not (is_nil s.queue))
        (λ _. (answer_all s req, λ r w. refl))
        (λ empty_now. (
          (accounted-release s).0,
          λ r w. (accounted-release s).1 ∙ is_nil-eq s.queue (ground arith),
        ))

  step-IsFlushed :
      (s : LpSession E) (x : Event E)
      → IsFlushed s (accounted s)
      → IsFlushed (step s x) (accounted s ++ messages (x ∷ []))
  unfolding step IsFlushed time_out hang_up
  step-IsFlushed s (sent e) h = send-IsFlushed s e
  step-IsFlushed s (polled req) h =
      subst (IsFlushed (poll s req)) (sym (list_append_nil (accounted s))) (poll-IsFlushed s req h)
  step-IsFlushed s (timed_out req) h =
      subst (IsFlushed (time_out s req)) (sym (list_append_nil (accounted s))) (
        if_cases (λ q. IsFlushed q (accounted s)) (is_waiting s req)
          (λ _. (answer_none s req, λ r w. absurd (ground arith))) (λ _. h))
  step-IsFlushed s (hung_up req) h =
      subst (IsFlushed (hang_up s req)) (sym (list_append_nil (accounted s))) (
        if_cases (λ q. IsFlushed q (accounted s)) (is_waiting s req)
          (λ _. (refl, λ r w. absurd (ground arith))) (λ _. h))

  messages-cons :
      (x : Event E) (xs : List (Event E)) → messages (x ∷ []) ++ messages xs ≡ messages (x ∷ xs)
  messages-cons (sent e) xs = refl
  messages-cons (polled req) xs = refl
  messages-cons (timed_out req) xs = refl
  messages-cons (hung_up req) xs = refl

  steps-IsFlushed :
      (s : LpSession E) (xs : List (Event E))
      → IsFlushed s (accounted s)
      → IsFlushed (steps s xs) (accounted s ++ messages xs)
  unfolding steps IsFlushed
  steps-IsFlushed s [] h = subst (IsFlushed s) (sym (list_append_nil (accounted s))) h
  steps-IsFlushed s (x ∷ xs) h =
      let next = step-IsFlushed s x h in
      subst (IsFlushed (steps (step s x) xs))
        (ap (λ l. l ++ messages xs) next.0
          ∙ list_append_assoc (accounted s) (messages (x ∷ [])) (messages xs)
          ∙ ap (λ l. accounted s ++ l) (messages-cons x xs))
        (steps-IsFlushed (step s x) xs (refl, next.1))

  -- Over any messages, polls, timeouts and closed requests, in any order, the answers to the polls and
  -- then the queue hold each message that was sent exactly once and in the order of sending, and no
  -- message waits in the queue while a poll is open.
  pub delivered_in_order :
      (now : ℕ) (xs : List (Event E))
      → (accounted (steps (new_session now) xs) ≡ messages xs)
        × ((req : ℕ)
            → (steps (new_session now) xs).waiter ≡ some req
            → (steps (new_session now) xs).queue ≡ [])
  unfolding IsFlushed
  delivered_in_order now xs = steps-IsFlushed (new_session now) xs (refl, λ req h. refl)
