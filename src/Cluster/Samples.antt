-- ===== src/Cluster/Samples.antt =====
-- A cluster of two nodes, and the theorems about clusters at it.
use ugem.Prelude.{◌≡◌, ◌≤◌, true, false, some, String, [], ◌∷◌, get, contains, is_some, arith}
use ugem.Goal.{Goal, pending}
use ugem.SampleData.{waiting}
use ugem.Cluster.{Cluster, new_cluster, add_node, elect_leader, count_at, distribute_goal}
use ugem.Cluster.Steps.{Reach, adding, distributing, electing, fresh, next}
use ugem.Cluster.Leader.{IsLed, Reach-IsLed, elect_leader_most}

abbrev refill : Goal
refill = waiting "refill" "stock" pending

abbrev pair : Cluster
pair = (add_node (new_cluster "one" "a:1" 0) "two" "b:1" true 5).0

pair-Reach : Reach pair
pair-Reach = next (fresh "one" "a:1" 0) (adding "two" "b:1" true 5)

-- The hash of the goal leads to the first node, which has the goal from then on.
Reach-IsLed_example : IsLed (
    elect_leader (distribute_goal (λ s. 6) pair ("one" ∷ "two" ∷ []) refill).0 ("two" ∷ "one" ∷ []))
Reach-IsLed_example = Reach-IsLed (
    next (next pair-Reach (distributing (λ s. 6) ("one" ∷ "two" ∷ []) refill))
      (electing ("two" ∷ "one" ∷ [])))

-- `one` has the goal and is marked as leader no longer.
abbrev led_by_two : Cluster
led_by_two = record {
  nodes =
      (
        "one",
        record {
          id = "one";
          address = "a:1";
          is_leader = false;
          goals = some (("refill", refill) ∷ []);
          connected = false;
          last_seen = 0;
        },
      )
      ∷ [];
  local_id = "one";
  leader_id = "two";
}

led_by_two_complete : (k : String) → contains k ("one" ∷ []) ≡ is_some (get led_by_two.nodes k)
unfolding contains get
led_by_two_complete k = ground arith

elect_leader_most_example :
    let leader = (elect_leader led_by_two ("one" ∷ [])).leader_id in
    (is_some (get led_by_two.nodes leader) ≡ true)
    × (count_at led_by_two.nodes "two" ≤ count_at led_by_two.nodes leader)
unfolding get
elect_leader_most_example =
    elect_leader_most led_by_two ("one" ∷ []) "one" "two" led_by_two_complete (omega arith)
