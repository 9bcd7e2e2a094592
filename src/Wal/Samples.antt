-- ===== src/Wal/Samples.antt =====
-- A run of the write-ahead log.
use ugem.Prelude.{ℕ, ◌≡◌, refl, none, [], ◌∷◌}
use ugem.Types.{ok, Event}
use ugem.SampleData.{event_of}
use ugem.Wal.{Wal, append_wal, truncate, working}

abbrev entry : ℕ → Event
entry id = record (event_of [] none []) { id = id; clock = id }

abbrev three_entries : Wal
three_entries = record { entries = entry 1 ∷ entry 2 ∷ entry 3 ∷ []; event_count = 3; clock = 3 }

-- Truncation starts the count anew, so the next entry gets the number of one that was kept.
reused : (append_wal (truncate three_entries 2) (entry 0) 9 working).1 ≡ ok 3
unfolding append_wal truncate
reused = refl
