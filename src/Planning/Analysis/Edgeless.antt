-- ===== src/Planning/Analysis/Edgeless.antt =====
-- The graph of the analyzer and of the planner has goals, and no dependencies between them.
use ugem.Prelude.{
  ℕ, suc, ◌≡◌, refl, sym, ap, ◌∙◌, subst, String, Bool, true, false, some, List, [], ◌∷◌, GoMap,
  get, get-put, put, put-IsDistinct, IsDistinct, contains, count, length, is_some, All, arith,
  Option-cases, inl, inr, ◌⊎◌,
}
use mathlib.Core.List.{reverse, reverse_aux}
use ugem.Types.{ok}
use ugem.Goal.{Goal}
use ugem.Planning.{
  DependencyNode, DependencyGraph, new_dependency_graph, node_of, note_dependents, add_node,
  get_execution_order,
}
use ugem.Cycles.Sound.{contains_here, contains_later}
use ugem.Planning.Mirror.{IsMirrored, node_of-put}
use ugem.Planning.Accepted.{has_edge, topological_sort_iff}
use ugem.Planning.Analysis.{
  WhatIfAnalyzer, load_goals, new_what_if_analyzer, spread, affected_from, affected_of,
  get_affected_goals, simulate_goal, GoalPlanner, new_goal_planner, plan_new_goal, known_goals,
  get_execution_plan,
}

abbrev bare_node : String → DependencyNode
bare_node id = record { goal_id = id; dependents = []; dependees = [] }

-- A graph without dependencies.
pub record IsFlat (g : DependencyGraph) : Type 0 where
  pub no_edge : has_edge g.nodes ≡ false
  pub distinct : IsDistinct g.nodes
  pub alone :
      (id : String) → ((node_of g.nodes id).dependees ≡ []) × ((node_of g.nodes id).dependents ≡ [])

has_edge-put :
    (nodes : GoMap DependencyNode) (id : String)
    → has_edge nodes ≡ false
    → has_edge (put nodes id (bare_node id)) ≡ false
unfolding has_edge put
has_edge-put [] id h = refl
has_edge-put ((j, node) ∷ nodes) id h = ground (arith, h, has_edge-put nodes id)

fresh-IsFlat : IsFlat new_dependency_graph
unfolding has_edge node_of get
fresh-IsFlat = record { no_edge = refl; distinct = tt; alone = λ id. (refl, refl) }

add_node_cases :
    (g : DependencyGraph) (id : String)
    → ((add_node g id []).0 ≡ g)
      ⊎ ((add_node g id []).0 ≡ record { nodes = put g.nodes id (bare_node id) })
unfolding add_node note_dependents
add_node_cases g id = ground arith

add_node-IsFlat : (g : DependencyGraph) (id : String) → IsFlat g → IsFlat (add_node g id []).0
add_node-IsFlat g id flat = elim (add_node_cases g id) [
  | inl same ↦ subst IsFlat (sym same) flat
  | inr e ↦ subst IsFlat (sym e) (record {
    no_edge = has_edge-put g.nodes id flat.no_edge;
    distinct = put-IsDistinct g.nodes id (bare_node id) flat.distinct;
    alone = λ j. ground (arith, node_of-put g.nodes id j (bare_node id), flat.alone j);
  })
]

pub flat-IsMirrored : (g : DependencyGraph) → IsFlat g → IsMirrored g.nodes
unfolding count
flat-IsMirrored g flat a b = ground (arith, flat.alone a, flat.alone b)

load_goals-IsFlat :
    (a : WhatIfAnalyzer) (goals : List Goal) → IsFlat a.graph → IsFlat (load_goals a goals).graph
unfolding load_goals
load_goals-IsFlat a [] flat = flat
load_goals-IsFlat a (goal ∷ goals) flat =
    load_goals-IsFlat
      (record {
        graph = (add_node a.graph goal.id []).0;
        current_goals = put a.current_goals goal.id goal;
      })
      goals (add_node-IsFlat a.graph goal.id flat)

affected_from-flat :
    (g : DependencyGraph) (fuel : ℕ) (id : String)
    → IsFlat g
    → (v : List String) × (affected_from g.nodes
          (suc fuel)
          id
          (record { visited = []; affected = [] })
        ≡ some (record { visited = v; affected = [] }))
unfolding affected_from spread contains node_of
affected_from-flat g fuel id flat = elim (Option-cases (get g.nodes id)) [
  | inl missing ↦ (id ∷ [], rw (missing, affected_from) refl)
  | inr (node, there) ↦
      let none_there : node.dependents ≡ [] = ground (arith, there, flat.alone id) in
      (id ∷ [], rw (there, affected_from, none_there, spread) refl)
]

get_affected_goals-nil :
    (a : WhatIfAnalyzer) (id : String) → IsFlat a.graph → get_affected_goals a id ≡ some []
unfolding get_affected_goals
get_affected_goals-nil a id flat =
    let (v, e) = affected_from-flat a.graph (suc (length a.graph.nodes)) id flat in ap affected_of e

-- A what-if analysis projects no other goals: with cascade its scenario is the one without, on whatever
-- goals it was made, since the graph that it makes of them has no dependencies.
simulate_goal_alone :
    (goals : List Goal) (prefix state id : String) (cascade : Bool)
    → simulate_goal prefix state (new_what_if_analyzer goals) id cascade
      ≡ simulate_goal prefix state (new_what_if_analyzer goals) id false
unfolding simulate_goal new_what_if_analyzer
simulate_goal_alone goals prefix state id false = refl
simulate_goal_alone goals prefix state id true =
    let a = new_what_if_analyzer goals in
    let flat =
      load_goals-IsFlat (record { graph = new_dependency_graph; current_goals = [] }) goals
        fresh-IsFlat in
    ground (arith, get_affected_goals-nil a id flat)

-- One call of the planner's `AddGoal` after the other.
pub data Reach : GoalPlanner → Type 0 where
  fresh : Reach new_goal_planner
  next : {p : GoalPlanner} → Reach p → (goal : Goal) → Reach (plan_new_goal p goal).0

pub record IsPlain (p : GoalPlanner) : Type 0 where
  pub flat : IsFlat p.graph
  pub known :
      (id : String) → is_some (get p.graph.nodes id) ≡ true → is_some (get p.goals id) ≡ true

plan_new_goal_cases :
    (p : GoalPlanner) (goal : Goal)
    → ((plan_new_goal p goal).0 ≡ p)
      ⊎ ((plan_new_goal p goal).0
          ≡ record { graph = (add_node p.graph goal.id []).0; goals = put p.goals goal.id goal })
unfolding plan_new_goal add_node note_dependents
plan_new_goal_cases p goal = elim (Option-cases (get p.graph.nodes goal.id)) [
  | inl missing ↦ inr (ground (arith, missing))
  | inr (node, there) ↦ inl (ground (arith, there))
]

known-put :
    (p : GoalPlanner) (goal : Goal) (id : String)
    → (is_some (get p.graph.nodes id) ≡ true → is_some (get p.goals id) ≡ true)
    → is_some (get (add_node p.graph goal.id []).0.nodes id) ≡ true
    → is_some (get (put p.goals goal.id goal) id) ≡ true
known-put p goal id known h = elim (add_node_cases p.graph goal.id) [
  | inl same ↦ ground (
    arith,
    known (ap (λ g. is_some (get g.nodes id)) (sym same) ∙ h),
    get-put p.goals goal.id id goal,
  )
  | inr e ↦
      let h' = ap (λ g. is_some (get g.nodes id)) (sym e) ∙ h in
      ground (
        arith,
        h',
        get-put p.graph.nodes goal.id id (bare_node goal.id),
        get-put p.goals goal.id id goal,
        known,
      )
]

plan_new_goal-IsPlain :
    (p : GoalPlanner) (goal : Goal) → IsPlain p → IsPlain (plan_new_goal p goal).0
plan_new_goal-IsPlain p goal plain = elim (plan_new_goal_cases p goal) [
  | inl same ↦ subst IsPlain (sym same) plain
  | inr e ↦ subst IsPlain (sym e) (record {
    flat = add_node-IsFlat p.graph goal.id plain.flat;
    known = λ id h. known-put p goal id (plain.known id) h;
  })
]

pub Reach-IsPlain : {p : GoalPlanner} → Reach p → IsPlain p
unfolding get
Reach-IsPlain fresh = record { flat = fresh-IsFlat; known = λ id h. absurd (cc h) }
Reach-IsPlain (next {p} r goal) = plan_new_goal-IsPlain p goal (Reach-IsPlain r)

known_goals-All :
    (goals : GoMap Goal) (ids : List String)
    → All (λ id. is_some (get goals id) ≡ true) ids
    → known_goals goals ids ≡ ids
unfolding known_goals
known_goals-All goals [] h = refl
known_goals-All goals (id ∷ ids) h = rw (h.0, known_goals-All goals ids h.1) refl

All-reverse_aux :
    (goals : GoMap Goal) (xs rest : List String)
    → All (λ id. is_some (get goals id) ≡ true) xs
    → All (λ id. is_some (get goals id) ≡ true) rest
    → All (λ id. is_some (get goals id) ≡ true) (reverse_aux xs rest)
All-reverse_aux goals [] rest h k = k
All-reverse_aux goals (x ∷ xs) rest h k = All-reverse_aux goals xs (x ∷ rest) h.1 (h.0, k)

All-of-contains :
    (goals : GoMap Goal) (xs : List String)
    → ((id : String) → contains id xs ≡ true → is_some (get goals id) ≡ true)
    → All (λ id. is_some (get goals id) ≡ true) xs
All-of-contains goals [] h = tt
All-of-contains goals (x ∷ xs) h =
    (h x (contains_here x xs), All-of-contains goals xs (λ id c. h id (contains_later id x xs c)))

pub get_execution_plan-reverse :
    {p : GoalPlanner} (r : Reach p) (order : List String)
    → ((id : String) → contains id order ≡ is_some (get p.graph.nodes id))
    → length order ≡ length p.graph.nodes
    → get_execution_plan p order ≡ some (ok (reverse order))
unfolding get_execution_plan get_execution_order
get_execution_plan-reverse {p} r order complete one_visit =
    let plain = Reach-IsPlain r in
    let sorted =
      topological_sort_iff p.graph order complete one_visit (flat-IsMirrored p.graph plain.flat)
        plain.flat.distinct in
    let kept = known_goals-All p.goals (reverse order) (
      All-reverse_aux p.goals order []
        (All-of-contains p.goals order (λ id c. plain.known id (sym (complete id) ∙ c))) tt) in
    ground (arith, sorted, plain.flat.no_edge, kept)
