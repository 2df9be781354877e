-- ===== src/Examples/Histories.antt =====
-- The repository on concrete histories and entries.
use media_hub_oss.Prelude.{◌≤◌, ◌≡◌, refl, arith, true, false, [], ◌∷◌, List, ok}
use media_hub_oss.Repository.Types.{Store, Env, ready, processing, error, queued}
use media_hub_oss.Repository.Table.{
  find_row, insert_row, update_row, count_status, size_delta, apply_delta,
}
use media_hub_oss.Repository.Entries.{
  create_entry, created, new_row, new_id, enqueue_entry, rewritten, write_entry, entry_delta,
  claim_queued_entry, claimed, claim_row, is_queued_row, map_custom_fields,
}
use media_hub_oss.Repository.Consistency.{IsConsistent, Leaves}
use media_hub_oss.Repository.Consistency.Histories.{
  Operation, create, enqueue, claim, delete, Fits, run, step, fresh, run-fresh-IsConsistent,
}
use media_hub_oss.Repository.Queue.{enqueue_entry_bounded, claim_once}
use media_hub_oss.Media.Mime.{is_mime_of_type}
use media_hub_oss.Examples.{works, db_id, image_db, picture, row, store}

abbrev history : List (Env × Operation)
history =
    (works, create image_db (record picture { id = 0 }))
    ∷ (works, enqueue picture 5)
    ∷ (works, claim 1)
    ∷ (works, delete 1)
    ∷ []

history-Fits : Fits db_id (fresh []) history
unfolding step fresh create_entry created new_row new_id map_custom_fields find_row insert_row
    update_row enqueue_entry rewritten write_entry entry_delta size_delta apply_delta
    claim_queued_entry claimed claim_row is_mime_of_type
history-Fits = (omega arith, (omega arith, (tt, (tt, tt))))

run-fresh-IsConsistent_example : IsConsistent (run db_id (fresh []) history)
run-fresh-IsConsistent_example = run-fresh-IsConsistent db_id [] history history-Fits

store-IsConsistent : IsConsistent store
store-IsConsistent = omega arith

enqueue_entry_bounded_example :
    Leaves (λ s. count_status queued s.rows ≤ 5) (enqueue_entry works db_id picture 5 store)
unfolding find_row
enqueue_entry_bounded_example =
    enqueue_entry_bounded works db_id picture 5 store store-IsConsistent (omega arith) refl

-- The store with entry 2 queued, and after its claim.
abbrev queue : Store
queue = record store {
  stats = record { entry_count = 3; total_disk_space_bytes = 330; queued_count = 1 };
  rows = row 1 ready ∷ row 2 queued ∷ row 3 error ∷ [];
}

abbrev taken : Store
taken = record queue {
  stats = record { entry_count = 3; total_disk_space_bytes = 330; queued_count = 0 };
  rows = row 1 ready ∷ record (row 2 processing) { updated_at = 1_000 } ∷ row 3 error ∷ [];
}

first_claim : claim_queued_entry works db_id 2 queue ≡ ok (true, taken)
unfolding claim_queued_entry claimed claim_row find_row update_row
first_claim = refl

second_claim : claim_queued_entry works db_id 2 taken ≡ ok (false, taken)
unfolding claim_queued_entry claimed claim_row find_row update_row
second_claim = refl

claim_once_example : (true ≡ is_queued_row (find_row 2 queue.rows)) × (false ≡ false)
claim_once_example =
    claim_once works works db_id 2 queue taken taken true false first_claim second_claim
