-- ===== src/Catalog/Eviction/Examples.antt =====
-- A fact of one task ends the completion of another item that has none.
use repotraverse.Prelude.{◌≡◌, refl, true, false, some, [], ◌∷◌, codes, text_eq, All}
use repotraverse.Catalog.Tables.{
  WorkItem, Queue, pending, running, completed, update_where, count_running, one_running,
}
use repotraverse.Catalog.Facts.{
  CacheLimits, store_fact, stored_facts, stored_rows, stored_item, rescheduled, insert_fact,
  has_fact_id, evict, delete_oldest, is_oldest, count_older, is_older, total_size, text_before,
  has_fact, unpublish, is_pending_id, next_pending_task, pick_row, first_due, picked_item,
}
use repotraverse.Catalog.Steps.{empty_queue}
use repotraverse.Catalog.Eviction.{HasResult, store_fact-HasResult}

abbrev synced : WorkItem
synced = record {
  work_id = codes "s";
  kind = codes "connector_sync";
  parameters = codes "{}";
  credential_reference = [];
  fifo_sequence = 1;
  state = completed;
  owner = [];
  attempt_count = 0;
  next_attempt_at = 0;
  cancellation_requested = false;
  maintenance = false;
  progress = codes "{}";
  error_fingerprint = [];
  created_at = 100;
  updated_at = 100;
}

abbrev extraction : WorkItem
extraction = record synced {
  work_id = codes "e";
  kind = codes "extraction";
  fifo_sequence = 2;
  state = pending;
}

abbrev queue : Queue
queue = record empty_queue { items = synced ∷ extraction ∷ []; published = codes "e" ∷ [] }

abbrev limits : CacheLimits
limits = record { maximum_cached_facts = 10; maximum_cached_fact_bytes = 4096 }

stored : (t : Queue) × (store_fact 200 limits (codes "f") (codes "e") 4 true queue ≡ some t)
unfolding store_fact
stored = (_, refl)

store_fact-HasResult_example :
    All (HasResult stored.0.facts) stored.0.items
    × All (λ i. is_pending_id i stored.0.items ≡ false) stored.0.published
store_fact-HasResult_example =
    store_fact-HasResult 200 limits (codes "f") (codes "e") 4 queue stored.0 stored.1

-- The synchronization that was completed is set back.
sync_repeats :
    stored.0.items
    ≡ record synced { state = pending }
      ∷ record extraction { state = completed; updated_at = 200 }
      ∷ []
unfolding stored store_fact stored_rows update_where stored_item rescheduled has_fact stored_facts
    insert_fact has_fact_id evict total_size text_eq
sync_repeats = refl

-- A fact that is larger than the cache is evicted at once, and its task waits again.
too_large :
    (t : Queue) × (store_fact 200 limits (codes "f") (codes "e") 5000 true queue ≡ some t)
    × (t.facts ≡ [])
    × (t.published ≡ [])
unfolding store_fact stored_rows update_where stored_item rescheduled has_fact stored_facts
    insert_fact has_fact_id evict delete_oldest is_oldest count_older is_older text_before
    total_size text_eq unpublish is_pending_id
too_large = (_, refl, refl, refl)

picked : (next_pending_task 200 queue).1 ≡ some (record extraction { state = running })
unfolding next_pending_task pick_row first_due picked_item update_where one_running count_running
    text_eq
picked = refl
