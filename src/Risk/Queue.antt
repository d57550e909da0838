-- ===== src/Risk/Queue.antt =====
-- `RiskEngine.taskQueue`: a buffered channel of 50000 users. A send to a full channel is dropped.
use mathlib.Core.List.{append-nil, append_assoc}
use aave_v3_flash_liquidator.Prelude.{
  take_all, take_full, ap, sym, ◌∙◌, Bool-cases, inl, inr, ℕ, ◌≤◌, ◌≡◌, List, [], ◌∷◌, ◌++◌, length,
  length-append, take, arith, ltb, if◌then◌else◌,
}
use aave_v3_flash_liquidator.Text.{Text}
use aave_v3_flash_liquidator.Store.{StateStore, get_subscribers}

abbrev pub task_queue_size : ℕ
task_queue_size = 50000

unfoldable pub enqueue : Text → List Text → List Text
enqueue user_addr queue =
    if ltb (length queue) task_queue_size then queue ++ user_addr ∷ [] else queue

unfoldable pub enqueue_all : List Text → List Text → List Text
enqueue_all [] queue = queue
enqueue_all (u ∷ users) queue = enqueue_all users (enqueue u queue)

unfoldable pub enqueue_by_asset : StateStore → Text → List Text → List Text
unfolding enqueue_all
enqueue_by_asset s asset queue = enqueue_all (get_subscribers s asset) queue

-- Starting from a queue that is not over its capacity of 50000, enqueueing users one after another
-- gives the first 50000 of the queue followed by the users.
pub enqueue_all-take :
    (users queue : List Text)
    → length queue ≤ task_queue_size
    → enqueue_all users queue ≡ take task_queue_size (queue ++ users)
unfolding enqueue_all enqueue
enqueue_all-take [] queue h = sym (rw (append-nil queue) (take_all task_queue_size queue h))
enqueue_all-take (u ∷ users) queue h = elim (Bool-cases (ltb (length queue) task_queue_size)) [
  | inl room ↦
      rw (enqueue, room)
        (enqueue_all-take users (queue ++ u ∷ []) (ground (arith, length-append queue (u ∷ [])))
          ∙ ap (take task_queue_size) (append_assoc queue (u ∷ []) users))
  | inr full ↦
      let at_end : length queue ≡ task_queue_size = ground arith in
      rw (enqueue, full)
        (enqueue_all-take users queue h
          ∙ take_full task_queue_size queue users at_end
          ∙ sym (take_full task_queue_size queue (u ∷ users) at_end))
]
