-- ===== src/Scheduler/Selection/Fitness.antt =====
-- node-selection.mjs: which nodes are selected.
use web_inspector.Contracts.Nodes.{
  NodeType, NodeStatus, blocked, disconnected, draining, heartbeat_missing, offline, rebooting,
  updating, version_mismatch, busy, connected, degraded, other_status, ready, unregistered,
  update_failed,
}
use web_inspector.Scheduler.Selection.Filters.{
  All-Occurs, All-Unit, All-filter_by, All-map, All-refused, Occurs, Occurs-filter_by,
  filter_by-refused, kept-Occurs,
}
use web_inspector.Prelude.{
  All, Bool, List, [], false, filter_by, true, ◌∷◌, ◌≡◌, All-append, All-take, not, arith, Option,
  String, ap, exists, refl, some, ◌≢◌, none, ◌↔◌, string_eq,
}
use web_inspector.Prelude.Dict.{has, values}
use web_inspector.Contracts.Versions.{
  Versions, meets_minimums, compare_versions, failures, is_older, version_of,
}
use web_inspector.Control.Registry.{Node, Registry, list_connected}
use web_inspector.Scheduler.Selection.{
  is_unavailable, pick_minimums, TypePolicy, eligible, picked, select_for_url, has_type,
}

-- The statuses in which a node is not to be given a test
abbrev pub excluding : List NodeStatus
excluding =
    draining ∷ updating ∷ rebooting ∷ offline ∷ disconnected ∷ heartbeat_missing ∷ version_mismatch
    ∷ blocked ∷ []

-- The versions in which a node must not be behind
abbrev pub compared : List String
compared = "agentVersion" ∷ "contractsVersion" ∷ "protocolVersion" ∷ "schemaVersion" ∷ []

-- A node of the registry that is fit for a test.
pub record IsFit {S : Type 0} (r : Registry S) (desired : Versions) (n : Node) : Type 0 where
  pub is_connected : has n.node_id r.sessions ≡ true
  pub is_available : All (λ s. n.status ≢ some s) excluding
  pub is_current :
      All
        (λ f. is_older (compare_versions (version_of f n.versions) (version_of f desired)) ≡ false)
        compared

-- An entry of the policy asks for the type of the node.
abbrev pub IsAsked : List (NodeType × TypePolicy) → Node → Type 0
IsAsked policy n = exists (λ e. has_type e.0 n) policy ≡ true

available_lem : (o : Option NodeStatus) → is_unavailable o ≡ false → All (λ s. o ≢ some s) excluding
available_lem o h = (
  apart draining refl,
  (
    apart updating refl,
    (
      apart rebooting refl,
      (
        apart offline refl,
        (
          apart disconnected refl,
          (apart heartbeat_missing refl, (apart version_mismatch refl, (apart blocked refl, tt))),
        ),
      ),
    ),
  ),
)
  where
    apart : (s : NodeStatus) → is_unavailable (some s) ≡ true → o ≢ some s
    apart s e same = ground (arith, ap is_unavailable same, e, h)

available-back :
    (o : Option NodeStatus) → All (λ s. o ≢ some s) excluding → is_unavailable o ≡ false
available-back none h = refl
available-back (some draining) h = absurd (h.0 refl)
available-back (some updating) h = absurd (h.1.0 refl)
available-back (some rebooting) h = absurd (h.1.1.0 refl)
available-back (some offline) h = absurd (h.1.1.1.0 refl)
available-back (some disconnected) h = absurd (h.1.1.1.1.0 refl)
available-back (some heartbeat_missing) h = absurd (h.1.1.1.1.1.0 refl)
available-back (some version_mismatch) h = absurd (h.1.1.1.1.1.1.0 refl)
available-back (some blocked) h = absurd (h.1.1.1.1.1.1.1.0 refl)
available-back (some unregistered) h = refl
available-back (some connected) h = refl
available-back (some ready) h = refl
available-back (some busy) h = refl
available-back (some degraded) h = refl
available-back (some update_failed) h = refl
available-back (some (other_status s)) h = refl

nothing_fails :
    (versions minimums : Versions)
    → meets_minimums versions minimums ≡ true
    → failures versions minimums ≡ []
unfolding meets_minimums
nothing_fails versions minimums h = empty_of (failures versions minimums) h
  where
    empty_of : (l : Versions) → elim l [ [] ↦ true | _ ∷ _ ↦ false ] ≡ true → l ≡ []
    empty_of [] e = refl
    empty_of (m ∷ l) e = absurd (ground arith)

current_lem :
    (versions desired : Versions)
    → meets_minimums versions (pick_minimums desired) ≡ true
    → All
        (λ f. is_older (compare_versions (version_of f versions) (version_of f desired)) ≡ false)
        compared
unfolding pick_minimums failures
current_lem versions desired h =
    All-refused (λ m. is_older (compare_versions (version_of m.0 versions) m.1))
      (pick_minimums desired) (nothing_fails versions (pick_minimums desired) h)

current-back :
    (versions desired : Versions)
    → All
        (λ f. is_older (compare_versions (version_of f versions) (version_of f desired)) ≡ false)
        compared
    → meets_minimums versions (pick_minimums desired) ≡ true
unfolding meets_minimums pick_minimums failures
current-back versions desired h =
    ap (λ (l : Versions). elim l [ [] ↦ true | _ ∷ _ ↦ false ])
      (filter_by-refused (λ m. is_older (compare_versions (version_of m.0 versions) m.1))
        (pick_minimums desired) h)

not-false : (b : Bool) → not b ≡ true → b ≡ false
not-false b h = ground arith

module _ {S : Type 0} (r : Registry S) (desired : Versions) where
  -- The nodes of a type that are eligible, and what is asked of each.
  eligible-IsFit :
      (type : NodeType)
      → All (λ n. IsFit r desired n × (has_type type n ≡ true)) (eligible r desired type)
  unfolding eligible list_connected
  eligible-IsFit type =
      let has_session : Node → Bool = λ n. has n.node_id r.sessions in
      let available : Node → Bool = λ n. not (is_unavailable n.status) in
      let current : Node → Bool = λ n. meets_minimums n.versions (pick_minimums desired) in
      let attached =
        All-filter_by (λ (n : Node). Unit {0}) has_session (values r.nodes)
          (All-Unit (values r.nodes)) in
      let typed =
        All-filter_by (λ (n : Node). (has_session n ≡ true) × Unit {0}) (has_type type)
          (filter_by has_session (values r.nodes)) attached in
      let free =
        All-filter_by _ available
          (filter_by (has_type type) (filter_by has_session (values r.nodes))) typed in
      All-map _ (λ n. IsFit r desired n × (has_type type n ≡ true))
        (λ n h. (
          record {
            is_connected = h.1.1.1.0;
            is_available = available_lem n.status (not-false (is_unavailable n.status) h.1.0);
            is_current = current_lem n.versions desired h.0;
          },
          h.1.1.0,
        ))
        (eligible r desired type)
        (All-filter_by _ current
          (filter_by available (filter_by (has_type type) (filter_by has_session (values r.nodes))))
          free)

  -- The nodes that are eligible for a type
  eligible_iff :
      (type : NodeType) (n : Node)
      → Occurs n (eligible r desired type)
        ↔ (Occurs n (values r.nodes) × (has_type type n ≡ true) × IsFit r desired n)
  unfolding eligible list_connected
  eligible_iff type n =
      let has_session : Node → Bool = λ m. has m.node_id r.sessions in
      let available : Node → Bool = λ m. not (is_unavailable m.status) in
      let current : Node → Bool = λ m. meets_minimums m.versions (pick_minimums desired) in
      let attached = filter_by has_session (values r.nodes) in
      let typed = filter_by (has_type type) attached in
      let free = filter_by available typed in
      (
        λ m.
            let facts = All-Occurs _ n (eligible r desired type) (eligible-IsFit type) m in
            (
              kept-Occurs has_session n (values r.nodes) (
                  kept-Occurs (has_type type) n attached
                    (kept-Occurs available n typed (kept-Occurs current n free m))),
              facts.1,
              facts.0,
            ),
        λ (m, t, fit).
            Occurs-filter_by current n free
              (Occurs-filter_by available n typed
                (Occurs-filter_by (has_type type) n attached
                  (Occurs-filter_by has_session n (values r.nodes) m fit.is_connected) t)
                (ap not (available-back n.status fit.is_available)))
              (current-back n.versions desired fit.is_current),
      )

  chosen-IsFit :
      (policy : List (NodeType × TypePolicy))
      → All (λ n. IsFit r desired n × IsAsked policy n) (select_for_url r desired policy).selected
  unfolding select_for_url picked
  chosen-IsFit [] = tt
  chosen-IsFit ((type, p) ∷ rest) =
      All-append (λ n. IsFit r desired n × IsAsked ((type, p) ∷ rest) n)
        (picked p (eligible r desired type)) (select_for_url r desired rest).selected
        (All-take _ _ (eligible r desired type) (
          All-map _ _ (λ n h. (h.0, ground (arith, h.1))) (eligible r desired type)
            (eligible-IsFit type)))
        (All-map _ _ (λ n h. (h.0, ground (arith, h.1))) (select_for_url r desired rest).selected
          (chosen-IsFit rest))

  -- Every node that is selected for a URL has a session and a type for which the policy has an entry, is
  -- in none of the eight excluding statuses, and is in none of its agent, contracts, protocol and schema
  -- versions older than desired; and a node is eligible for a type exactly if the registry has it, it is
  -- of the type, and the same holds of its session, its status and its versions.
  pub selected-IsFit :
      (policy : List (NodeType × TypePolicy)) (type : NodeType) (n : Node)
      → All (λ m. IsFit r desired m × IsAsked policy m) (select_for_url r desired policy).selected
        × (Occurs n (eligible r desired type)
            ↔ (Occurs n (values r.nodes) × (has_type type n ≡ true) × IsFit r desired n))
  selected-IsFit policy type n = (chosen-IsFit policy, eligible_iff type n)
