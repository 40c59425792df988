-- ===== src/Thread/Queue/Tests.antt =====
-- The theorems on the thread queues at small tables.
use advanced_synchronization.Base.{◌≡◌, refl, inl, inr, arith, [], ◌∷◌, num_ids, Returns}
use advanced_synchronization.Thread.Queue.{tqueue_enqueue, tqueue_dequeue, tqueue_remove}
use advanced_synchronization.Thread.Queue.Laws.{HoldsQueue}
use advanced_synchronization.Thread.Queue.Refine.{
  Became, IsDetached, enqueue_refines, dequeue_refines, remove_refines,
}
use advanced_synchronization.Thread.Scheduler.Tests.{tables, tables-IsScheduled}

holds : HoldsQueue tables num_ids (1 ∷ 2 ∷ [])
holds = tables-IsScheduled.ready_queue.queue

enqueue_refines_example :
    Returns
      (λ _ s'. Became tables s' num_ids (3 ∷ 1 ∷ 2 ∷ []) (1 ∷ 2 ∷ 3 ∷ []))
      (tqueue_enqueue num_ids 3 tables)
enqueue_refines_example =
    enqueue_refines tables num_ids (omega arith) 3 (1 ∷ 2 ∷ []) holds (ground arith) (omega arith)

dequeue_refines_example :
    Returns
      (λ pid s'. (pid ≡ 1) × Became tables s' num_ids (1 ∷ 2 ∷ []) (2 ∷ []) × IsDetached s' 1)
      (tqueue_dequeue num_ids tables)
dequeue_refines_example = dequeue_refines tables num_ids (omega arith) 1 (2 ∷ []) holds

remove_refines_example :
    Returns
      (λ _ s'. Became tables s' num_ids (1 ∷ 2 ∷ []) (1 ∷ []) × IsDetached s' 2)
      (tqueue_remove num_ids 2 tables)
remove_refines_example =
    remove_refines tables num_ids (omega arith) 2 (1 ∷ 2 ∷ []) holds (inr (inl refl))
