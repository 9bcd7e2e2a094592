-- ===== src/Wal/Truncation.antt =====
-- The numbers of entries after `Truncate`.
use ugem.Prelude.{
  ℕ, ◌+◌, ◌-◌, ◌*◌, ◌^◌, ◌≤◌, ◌<◌, ◌≡◌, some, length, length-drop, get_elem?, get_elem?-drop,
  get_elem?_within, ◌∙◌, arith,
}
use ugem.Types.{Event, ok}
use ugem.Wal.{Wal, append_wal, truncate, working}

append_wal-truncate :
    (w : Wal) (keep now : ℕ) (event : Event)
    → keep < length w.entries
    → keep + 1 < 2 ^ 64
    → (append_wal (truncate w keep) event now working).1 ≡ ok (keep + 1)
unfolding append_wal truncate
append_wal-truncate w keep now event h room =
    ground (arith, length-drop (length w.entries - keep) w.entries)

entries-truncate :
    (w : Wal) (keep i j : ℕ)
    → keep < length w.entries
    → j ≡ length w.entries - keep + i
    → get_elem? (truncate w keep).entries i ≡ get_elem? w.entries j
unfolding truncate
entries-truncate w keep i j h e =
    ground (arith, get_elem?-drop (length w.entries - keep) i j w.entries)

-- `Truncate` makes numbers come twice. If the entries are numbered 1, 2, … and at least half but not
-- all of them are kept, then the next event is appended under the number of an entry that was kept.
truncate_reuses_number :
    (w : Wal) (keep now : ℕ) (event : Event)
    → ((i : ℕ) (entry : Event) → get_elem? w.entries i ≡ some entry → entry.id ≡ i + 1)
    → keep < length w.entries
    → length w.entries ≤ 2 * keep
    → keep + 1 < 2 ^ 64
    → ((append_wal (truncate w keep) event now working).1 ≡ ok (keep + 1))
      × ((i : ℕ) × (entry : Event) × (get_elem? (truncate w keep).entries i ≡ some entry)
          × (entry.id ≡ keep + 1))
truncate_reuses_number w keep now event numbered h half room =
    let (entry, e) = get_elem?_within w.entries keep h in
    (
      append_wal-truncate w keep now event h room,
      (
        2 * keep - length w.entries,
        entry,
        entries-truncate w keep (2 * keep - length w.entries) keep h (omega arith) ∙ e,
        numbered keep entry e,
      ),
    )
