-- ===== src/Thread/Queue.antt =====
-- kern/thread/PTQueueInit: the doubly linked thread queues.
pub mod Laws
pub mod Refine
mod Tests
use advanced_synchronization.Base.{ℕ, ◌==◌, if◌then◌else◌, num_ids, M, pure, ◌>>=◌, ◌>>◌}
use advanced_synchronization.Thread.Tcb.{
  Sched, tcb_get_prev, tcb_set_prev, tcb_get_next, tcb_set_next, tqueue_get_head, tqueue_set_head,
  tqueue_get_tail, tqueue_set_tail,
}

unfoldable pub tqueue_enqueue : ℕ → ℕ → M Sched (Unit {0})
unfolding tcb_set_prev tcb_set_next tqueue_set_head tqueue_get_tail tqueue_set_tail
tqueue_enqueue chid pid = do
  tail ← tqueue_get_tail chid
  if tail == num_ids
      then (do
        tcb_set_prev pid num_ids
        tcb_set_next pid num_ids
        tqueue_set_head chid pid
        tqueue_set_tail chid pid)
      else (do
        tcb_set_next tail pid
        tcb_set_prev pid tail
        tcb_set_next pid num_ids
        tqueue_set_tail chid pid)

unfoldable pub tqueue_dequeue : ℕ → M Sched ℕ
unfolding tcb_get_next tcb_set_prev tcb_set_next tqueue_get_head tqueue_set_head tqueue_set_tail
tqueue_dequeue chid = do
  head ← tqueue_get_head chid
  if head == num_ids then pure num_ids else (do
    next ← tcb_get_next head
    if next == num_ids
        then (do tqueue_set_head chid num_ids; tqueue_set_tail chid num_ids)
        else (do tcb_set_prev next num_ids; tqueue_set_head chid next)
    tcb_set_prev head num_ids
    tcb_set_next head num_ids
    pure head)

unfoldable pub tqueue_remove : ℕ → ℕ → M Sched (Unit {0})
unfolding tcb_get_prev tcb_get_next tcb_set_prev tcb_set_next tqueue_set_head tqueue_set_tail
tqueue_remove chid pid = do
  prev ← tcb_get_prev pid
  next ← tcb_get_next pid
  if prev == num_ids
      then (if next == num_ids
          then (do tqueue_set_head chid num_ids; tqueue_set_tail chid num_ids)
          else (do tcb_set_prev next num_ids; tqueue_set_head chid next))
      else (if next == num_ids
          then (do tcb_set_next prev num_ids; tqueue_set_tail chid prev)
          else (do
            if prev == next then pure tt else tcb_set_next prev next
            tcb_set_prev next prev))
  tcb_set_prev pid num_ids
  tcb_set_next pid num_ids
