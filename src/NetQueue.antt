-- ===== src/NetQueue.antt =====
-- frame_netqueue.cpp: CFrameNetQueue, four queues of packet pointers between the net threads and the
-- logic thread; and frame_commandqueue.cpp: CFrameCommandQueue, one such queue without a lock. A call of
-- CFrameNetQueue holds the lock of its queue from its first access to its last, so it is one step. A
-- std::list is a list; a pointer is `some packet`, and `none` is NULL.
pub mod Order
pub mod Served
mod Tests
use lightframe.Common.{
  ℕ, ◌+◌, Bool, true, false, Option, none, some, List, [], ◌∷◌, ◌++◌, length, Status, ok, err,
  null_pointer,
}

pub record FrameNetQueue (P : Type 0) : Type 0 where
  pub recv_ss : List P
  pub send_ss : List P
  pub recv_cs : List P
  pub send_cs : List P

module _ {P : Type 0} where
  -- front() and pop_front(), where size() > 0
  abbrev pub head_of : List P → Option P
  head_of [] = none
  head_of (x ∷ xs) = some x

  abbrev pub tail_of : List P → List P
  tail_of [] = []
  tail_of (x ∷ xs) = xs

  abbrev pub is_empty_list : List P → Bool
  is_empty_list [] = true
  is_empty_list (x ∷ xs) = false

  pub get_size : FrameNetQueue P → ℕ
  get_size q = length q.recv_ss + length q.send_ss + length q.recv_cs + length q.send_cs

  pub push_recv_ss_queue : Option P → FrameNetQueue P → Status × FrameNetQueue P
  push_recv_ss_queue none q = (err null_pointer, q)
  push_recv_ss_queue (some p) q = (ok, record q { recv_ss = q.recv_ss ++ p ∷ [] })

  pub pop_recv_ss_queue : FrameNetQueue P → Status × Option P × FrameNetQueue P
  pop_recv_ss_queue q = (ok, head_of q.recv_ss, record q { recv_ss = tail_of q.recv_ss })

  pub is_recv_ss_queue_empty : FrameNetQueue P → Bool
  is_recv_ss_queue_empty q = is_empty_list q.recv_ss

  pub push_send_ss_queue : Option P → FrameNetQueue P → Status × FrameNetQueue P
  push_send_ss_queue none q = (err null_pointer, q)
  push_send_ss_queue (some p) q = (ok, record q { send_ss = q.send_ss ++ p ∷ [] })

  pub pop_send_ss_queue : FrameNetQueue P → Status × Option P × FrameNetQueue P
  pop_send_ss_queue q = (ok, head_of q.send_ss, record q { send_ss = tail_of q.send_ss })

  pub is_send_ss_queue_empty : FrameNetQueue P → Bool
  is_send_ss_queue_empty q = is_empty_list q.send_ss

  pub push_recv_cs_queue : Option P → FrameNetQueue P → Status × FrameNetQueue P
  push_recv_cs_queue none q = (err null_pointer, q)
  push_recv_cs_queue (some p) q = (ok, record q { recv_cs = q.recv_cs ++ p ∷ [] })

  pub pop_recv_cs_queue : FrameNetQueue P → Status × Option P × FrameNetQueue P
  pop_recv_cs_queue q = (ok, head_of q.recv_cs, record q { recv_cs = tail_of q.recv_cs })

  pub is_recv_cs_queue_empty : FrameNetQueue P → Bool
  is_recv_cs_queue_empty q = is_empty_list q.recv_cs

  pub push_send_cs_queue : Option P → FrameNetQueue P → Status × FrameNetQueue P
  push_send_cs_queue none q = (err null_pointer, q)
  push_send_cs_queue (some p) q = (ok, record q { send_cs = q.send_cs ++ p ∷ [] })

  pub pop_send_cs_queue : FrameNetQueue P → Status × Option P × FrameNetQueue P
  pop_send_cs_queue q = (ok, head_of q.send_cs, record q { send_cs = tail_of q.send_cs })

  pub is_send_cs_queue_empty : FrameNetQueue P → Bool
  is_send_cs_queue_empty q = is_empty_list q.send_cs

  -- CFrameCommandQueue::Push stores NULL too; Pop gives NULL where the queue is empty.
  pub command_push : Option P → List (Option P) → Status × List (Option P)
  command_push p q = (ok, q ++ p ∷ [])

  pub command_pop : List (Option P) → Status × Option P × List (Option P)
  command_pop [] = (ok, none, [])
  command_pop (p ∷ q) = (ok, p, q)
