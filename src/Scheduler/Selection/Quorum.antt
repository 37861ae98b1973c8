-- ===== src/Scheduler/Selection/Quorum.antt =====
-- node-selection.mjs: when a URL can be dispatched.
use web_inspector.Prelude.{
  All, List, [], length, ltb, refl, true, ◌↔◌, ◌∷◌, ◌≡◌, ◌≤◌, arith, eqb, if◌then◌else◌,
  length-take, max, not, ◌&&◌,
}
use web_inspector.Contracts.Nodes.{NodeType}
use web_inspector.Contracts.Versions.{Versions}
use web_inspector.Control.Registry.{Node, Registry}
use web_inspector.Scheduler.Selection.{
  TypePolicy, can_dispatch, eligible, picked, quorum_of, select_for_url,
}

-- `picked` falls short of the quorum exactly when the pool does.
length-picked :
    (p : TypePolicy) (pool : List Node)
    → ltb (length (picked p pool)) (quorum_of p) ≡ ltb (length pool) (quorum_of p)
unfolding picked
length-picked p pool = ground (
  arith,
  length-take
      (max (quorum_of p)
        (if not (eqb (length pool) 0) && p.takes_all then length pool else quorum_of p))
      pool,
)

module _ {S : Type 0} (r : Registry S) (desired : Versions) where
  -- An entry of the policy is met: it is not required, or enough nodes are eligible.
  abbrev pub IsMet : NodeType × TypePolicy → Type 0
  IsMet (type, p) = p.is_required ≡ true → quorum_of p ≤ length (eligible r desired type)

  -- A URL can be dispatched exactly when each required type of the policy has at least as many
  -- eligible nodes as its quorum.
  pub can_dispatch-IsMet :
      (policy : List (NodeType × TypePolicy))
      → (can_dispatch (select_for_url r desired policy) ≡ true) ↔ All IsMet policy
  unfolding select_for_url
  can_dispatch-IsMet [] = ((λ _. tt), λ _. refl)
  can_dispatch-IsMet ((type, p) ∷ rest) =
      let pool = eligible r desired type in
      let ih = can_dispatch-IsMet rest in
      let short = length-picked p pool in
      (λ h. (λ required. ground arith, ih.0 (ground arith)), λ h. ground (arith, ih.1 h.1, h.0))
