-- ===== src/Scheduler/Comparison.antt =====
-- `compareItems` is an order, total up to the names of the items.
use ugem.Prelude.{◌≡◌, refl, String, true, false, arith}
use ugem.Prelude.StringOrder.{str_ltb_asym, str_ltb_tri, str_ltb_trans}
use ugem.Scheduler.{
  ScheduledItem, Sign, less, same, more, then_by, by_number, by_deadline, by_priority, by_id,
  compare_items, item_less,
}

abbrev flip : Sign → Sign
flip less = more
flip same = same
flip more = less

record IsOrder {ℓ} {A : Type ℓ} (c : A → A → Sign) : Type ℓ where
  flips : (a b : A) → c b a ≡ flip (c a b)
  alike : (a b d : A) → c a b ≡ same → c a d ≡ c b d
  chain : (a b d : A) → c a b ≡ less → c b d ≡ less → c a d ≡ less

by_number-IsOrder : IsOrder by_number
by_number-IsOrder = record {
  flips = λ a b. ground arith;
  alike = λ a b d h. ground arith;
  chain = λ a b d h k. ground arith;
}

by_deadline-IsOrder : IsOrder by_deadline
unfolding by_deadline
by_deadline-IsOrder = record {
  flips = λ a b. ground arith;
  alike = λ a b d h. ground arith;
  chain = λ a b d h k. ground arith;
}

by_priority-IsOrder : IsOrder by_priority
unfolding by_priority
by_priority-IsOrder = record {
  flips = λ a b. ground arith;
  alike = λ a b d h. ground arith;
  chain = λ a b d h k. ground arith;
}

by_id-same : (s t : String) → by_id s t ≡ same → s ≡ t
unfolding by_id
by_id-same s t h = str_ltb_tri s t (ground arith) (ground arith)

by_id-IsOrder : IsOrder by_id
unfolding by_id
by_id-IsOrder = record {
  flips = λ s t. ground (arith, str_ltb_asym s t, str_ltb_asym t s);
  alike = λ s t u h. rw (by_id-same s t h) refl;
  chain = λ s t u h k. ground (
    arith,
    str_ltb_asym s t,
    str_ltb_asym t u,
    str_ltb_asym s u,
    str_ltb_trans s t u,
    str_ltb_trans u s t,
    str_ltb_trans t u s,
    str_ltb_tri s u,
  );
}

-- Comparing by one order, and where that does not decide by another.
then_by-IsOrder {ℓ} :
    {A : Type ℓ} {c e : A → A → Sign}
    → IsOrder c
    → IsOrder e
    → IsOrder (λ a b. then_by (c a b) (e a b))
then_by-IsOrder {c = c} {e = e} p q = record {
  flips = λ a b. ground (arith, p.flips a b, q.flips a b);
  alike = λ a b d h. ground (arith, p.alike a b d, q.alike a b d);
  chain = λ a b d h k. ground (
    arith,
    p.alike a b d,
    p.alike b d a,
    p.chain a b d,
    q.chain a b d,
    p.flips a b,
    p.flips b d,
    p.flips a d,
    p.alike d b a,
  );
}

on-IsOrder {ℓ κ} :
    {A : Type ℓ} {B : Type κ} {c : B → B → Sign} (f : A → B)
    → IsOrder c
    → IsOrder (λ a b. c (f a) (f b))
on-IsOrder f p = record {
  flips = λ a b. p.flips (f a) (f b);
  alike = λ a b d. p.alike (f a) (f b) (f d);
  chain = λ a b d. p.chain (f a) (f b) (f d);
}

compare_items-IsOrder : IsOrder compare_items
unfolding compare_items
compare_items-IsOrder =
    then_by-IsOrder (on-IsOrder (λ (i : ScheduledItem). i.deadline) by_deadline-IsOrder) (
      then_by-IsOrder (on-IsOrder (λ (i : ScheduledItem). i.execute_at) by_number-IsOrder) (
        then_by-IsOrder (on-IsOrder (λ (i : ScheduledItem). i.priority) by_priority-IsOrder) (
          then_by-IsOrder (on-IsOrder (λ (i : ScheduledItem). i.clock) by_number-IsOrder)
            (on-IsOrder (λ (i : ScheduledItem). i.id) by_id-IsOrder))))

compare_items-same : (a b : ScheduledItem) → compare_items a b ≡ same → a.id ≡ b.id
unfolding compare_items
compare_items-same a b h = by_id-same a.id b.id (ground arith)

pub item_less_asym : (a b : ScheduledItem) → item_less a b ≡ true → item_less b a ≡ false
unfolding item_less
item_less_asym a b h = let o = compare_items-IsOrder in ground (arith, o.flips a b)

pub item_less_trans :
    (a b d : ScheduledItem) → item_less b a ≡ false → item_less d b ≡ false → item_less d a ≡ false
unfolding item_less
item_less_trans a b d h k =
    let o = compare_items-IsOrder in
    ground
      (arith, o.flips a b, o.flips b d, o.flips a d, o.alike a b d, o.alike d b a, o.chain a b d)

-- Two items of which neither comes before the other have one name.
pub item_less_tri :
    (a b : ScheduledItem) → item_less a b ≡ false → item_less b a ≡ false → a.id ≡ b.id
unfolding item_less
item_less_tri a b h k =
    let o = compare_items-IsOrder in compare_items-same a b (ground (arith, o.flips a b))
