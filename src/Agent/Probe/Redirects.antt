-- ===== src/Agent/Probe/Redirects.antt =====
-- initial-test.mjs: the chain of redirects.
use mathlib.Core.Option.{some-injective}
use web_inspector.Prelude.{
  List, Result, String, [], arith, false, length, none, refl, some, suc, throw, true, truthy, value,
  zero, ℕ, ◌&&◌, ◌∷◌, ◌≡◌, ◌≢◌, ◌≤◌, ap, get_or, if_cases, result_cases, subst, ◌∙◌, Option, sym,
}
use web_inspector.Agent.Probe.{
  location, Fetched, Hop, Response, Thrown, after_turn, fetch_with_chain, follow, is_redirect,
  turn_of, Turn, broken, error_text,
}

module _ (fetch : String → Result Thrown Response)
    (resolve : String → String → Result Thrown String) where
  -- A hop is what a URL answered: a redirect of the hop's status, whose location, resolved against the
  -- URL, is where the hop leads.
  pub record IsHop (url : String) (h : Hop) : Type 0 where
    pub response : Response
    pub place : String
    pub from : h.from ≡ url
    pub answered : fetch url ≡ value response
    pub status : h.status ≡ response.status
    pub redirects : is_redirect response.status ≡ true
    pub located : location response ≡ some place
    pub leads : resolve place url ≡ value h.to

  -- The hops lead from one URL to another, each from where the one before led.
  abbrev pub IsPath : String → List Hop → String → Type 0
  IsPath a [] b = a ≡ b
  IsPath a (h ∷ hs) b = IsHop a h × IsPath h.to hs b

  -- What a search of at most `n` rounds from a URL finds.
  pub record Follows (n : ℕ) (target : String) (f : Fetched) : Type 0 where
    pub path : IsPath target f.redirect_chain f.final_url
    pub short : length f.redirect_chain ≤ n
    pub fetched : (r : Response) → f.response ≡ some r → fetch f.final_url ≡ value r
    pub landed :
        (r : Response) → f.response ≡ some r → (is_redirect r.status && truthy (location r)) ≡ false
    pub failed : f.response ≡ none → f.error ≢ none

  broken-Follows :
      (n : ℕ) (target error : String) (next : String → Fetched)
      → Follows n target (after_turn next target (broken error))
  broken-Follows n target error next = record {
    path = refl;
    short = omega arith;
    fetched = λ r h. absurd (ground arith);
    landed = λ r h. absurd (ground arith);
    failed = λ h e. cc;
  }

  -- A hop, and what the rounds after it find.
  hop-Follows :
      (n : ℕ) (target : String) (hop : Hop) (rest : Fetched)
      → IsHop target hop
      → Follows n hop.to rest
      → Follows (suc n) target (record rest { redirect_chain = hop ∷ rest.redirect_chain })
  hop-Follows n target hop rest goes ih = record {
    path = (goes, ih.path);
    short = omega (arith, ih.short);
    fetched = ih.fetched;
    landed = ih.landed;
    failed = ih.failed;
  }

  located : (o : Option String) → truthy o ≡ true → (place : String) × (o ≡ some place)
  located none h = absurd (ground arith)
  located (some place) h = (place, refl)

  follow-Follows : (n : ℕ) (target : String) → Follows n target (follow fetch resolve n target)
  unfolding follow
  follow-Follows zero target = record {
    path = refl;
    short = omega arith;
    fetched = λ r h. absurd (ground arith);
    landed = λ r h. absurd (ground arith);
    failed = λ h e. cc;
  }
  follow-Follows (suc n) target = by_answer (follow-Follows n) (fetch target) refl
    where
      by_answer :
          ((next : String) → Follows n next (follow fetch resolve n next))
          → (a : Result Thrown Response) → fetch target ≡ a
          → Follows
              (suc n)
              target
              (after_turn (follow fetch resolve n) target (turn_of fetch resolve target a))
      by_answer ih (throw e) q =
          broken-Follows (suc n) target (error_text e) (follow fetch resolve n)
      by_answer ih (value response) q =
          let Found : Turn → Type 0 =
            λ t. Follows (suc n) target (after_turn (follow fetch resolve n) target t) in
          if_cases Found (is_redirect response.status && truthy (location response))
            (λ goes.
              result_cases Found (resolve (get_or (location response) "") target)
                (λ next leads.
                  let (place, at) = located (location response) (ground (arith, goes)) in
                  hop-Follows n target
                    (record { from = target; to = next; status = response.status })
                    (follow fetch resolve n next)
                    (record {
                      response = response;
                      place = place;
                      from = refl;
                      answered = q;
                      status = refl;
                      redirects = ground (arith, goes);
                      located = at;
                      leads = sym (ap (λ o. resolve (get_or o "") target) at) ∙ leads;
                    })
                    (ih next))
                (λ e _. broken-Follows (suc n) target (error_text e) (follow fetch resolve n)))
            (λ stays. record {
              path = refl;
              short = omega arith;
              fetched = λ r h. q ∙ ap value (some-injective response r h);
              landed = λ r h.
                  subst (λ x. (is_redirect x.status && truthy (location x)) ≡ false)
                    (some-injective response r h) stays;
              failed = λ h e. cc;
            })

  -- The redirect chain of a fetch has at most eleven hops and leads from the target to the final URL. Each
  -- hop is from a URL that answered with a redirect, records the status of that answer, and leads to its
  -- location resolved against the URL. A response is what the final URL answered, and is no redirect that could be followed;
  -- without a response there is an error.
  pub fetch_with_chain-Follows :
      (target : String) → Follows 11 target (fetch_with_chain fetch resolve target)
  unfolding fetch_with_chain
  fetch_with_chain-Follows target = follow-Follows 11 target
