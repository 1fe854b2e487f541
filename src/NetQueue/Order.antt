-- ===== src/NetQueue/Order.antt =====
-- frame_netqueue.cpp: any interleaving of calls on the four queues keeps each queue in order.
use lightframe.Common.{
  ◌≡◌, sym, ap, ◌∙◌, Option, none, some, List, [], ◌∷◌, ◌++◌, append_assoc, append-nil, Status,
  Bool, true, false, if◌then◌else◌, arith,
}
use lightframe.NetQueue.{
  FrameNetQueue, push_recv_ss_queue, pop_recv_ss_queue, push_send_ss_queue, pop_send_ss_queue,
  push_recv_cs_queue, pop_recv_cs_queue, push_send_cs_queue, pop_send_cs_queue,
}

pub data Channel : Type 0 where
  recv_ss : Channel
  send_ss : Channel
  recv_cs : Channel
  send_cs : Channel

abbrev pub is_channel : Channel → Channel → Bool
is_channel recv_ss recv_ss = true
is_channel send_ss send_ss = true
is_channel recv_cs recv_cs = true
is_channel send_cs send_cs = true
is_channel c d = false

-- A call by one of the threads.
pub data Call (P : Type 0) : Type 0 where
  push : Channel → Option P → Call P
  pop : Channel → Call P

module _ {P : Type 0} where
  -- The packets of one channel.
  abbrev pub queue : Channel → FrameNetQueue P → List P
  queue recv_ss q = q.recv_ss
  queue send_ss q = q.send_ss
  queue recv_cs q = q.recv_cs
  queue send_cs q = q.send_cs

  push_queue : Channel → Option P → FrameNetQueue P → Status × FrameNetQueue P
  push_queue recv_ss = push_recv_ss_queue
  push_queue send_ss = push_send_ss_queue
  push_queue recv_cs = push_recv_cs_queue
  push_queue send_cs = push_send_cs_queue

  pop_queue : Channel → FrameNetQueue P → Status × Option P × FrameNetQueue P
  pop_queue recv_ss = pop_recv_ss_queue
  pop_queue send_ss = pop_send_ss_queue
  pop_queue recv_cs = pop_recv_cs_queue
  pop_queue send_cs = pop_send_cs_queue

  -- One call: the packet that it hands out, and the queues.
  pub call : Call P → FrameNetQueue P → Option P × FrameNetQueue P
  call (push c p) q = (none, (push_queue c p q).1)
  call (pop c) q = let (ret, p, q') = pop_queue c q in (p, q')

  abbrev pub run : List (Call P) → FrameNetQueue P → FrameNetQueue P
  run [] q = q
  run (x ∷ xs) q = run xs (call x q).1

  abbrev pub listed : Option P → List P
  listed none = []
  listed (some p) = p ∷ []

  -- What one call puts into channel c, and what it takes out of it.
  abbrev pub sent_by : Channel → Call P → List P
  sent_by c (push d p) = if is_channel c d then listed p else []
  sent_by c (pop d) = []

  abbrev pub taken_by : Channel → Call P → FrameNetQueue P → List P
  taken_by c (push d p) q = []
  taken_by c (pop d) q = if is_channel c d then listed (call (pop d) q).0 else []

  -- The packets that a run puts into channel c, and those that it hands out from it, in order.
  abbrev pub sent : Channel → List (Call P) → List P
  sent c [] = []
  sent c (x ∷ xs) = sent_by c x ++ sent c xs

  abbrev pub taken : Channel → List (Call P) → FrameNetQueue P → List P
  taken c [] q = []
  taken c (x ∷ xs) q = taken_by c x q ++ taken c xs (call x q).1

  pub queue-push :
      (c d : Channel) (p : Option P) (q : FrameNetQueue P)
      → queue c (call (push d p) q).1 ≡ queue c q ++ sent_by c (push d p)
  unfolding call push_queue push_recv_ss_queue push_send_ss_queue push_recv_cs_queue
      push_send_cs_queue
  queue-push c d none q = ground (arith, append-nil (queue c q))
  queue-push c d (some p) q = ground (arith, append-nil (queue c q))

  queue-pop :
      (c d : Channel) (q : FrameNetQueue P)
      → queue c q ≡ taken_by c (pop d) q ++ queue c (call (pop d) q).1
  unfolding call pop_queue pop_recv_ss_queue pop_send_ss_queue pop_recv_cs_queue pop_send_cs_queue
  queue-pop c d q = ground arith

  pub pop-front :
      (c d : Channel) (q : FrameNetQueue P) (p : P) (ps : List P)
      → is_channel c d ≡ true
      → queue c q ≡ p ∷ ps
      → (taken_by c (pop d) q ≡ p ∷ []) × (queue c (call (pop d) q).1 ≡ ps)
  unfolding call pop_queue pop_recv_ss_queue pop_send_ss_queue pop_recv_cs_queue pop_send_cs_queue
  pop-front c d q p ps h e = ground arith

  pub pop-other :
      (c d : Channel) (q : FrameNetQueue P)
      → is_channel c d ≡ false
      → (taken_by c (pop d) q ≡ []) × (queue c (call (pop d) q).1 ≡ queue c q)
  unfolding call pop_queue pop_recv_ss_queue pop_send_ss_queue pop_recv_cs_queue pop_send_cs_queue
  pop-other c d q h = ground arith

  call_order :
      (c : Channel) (x : Call P) (q : FrameNetQueue P)
      → queue c q ++ sent_by c x ≡ taken_by c x q ++ queue c (call x q).1
  call_order c (push d p) q = sym (queue-push c d p q)
  call_order c (pop d) q = append-nil (queue c q) ∙ queue-pop c d q

  -- In any interleaving of calls, what a channel held at first and what was then pushed to it is what
  -- was popped from it, in that order, and what it still holds: nothing is lost, doubled, overtaken or
  -- moved to another channel, and a push of NULL adds nothing.
  pub run_order :
      (c : Channel) (xs : List (Call P)) (q : FrameNetQueue P)
      → queue c q ++ sent c xs ≡ taken c xs q ++ queue c (run xs q)
  run_order c [] q = append-nil (queue c q)
  run_order c (x ∷ xs) q =
      sym (append_assoc (queue c q) (sent_by c x) (sent c xs))
      ∙ ap (λ l. l ++ sent c xs) (call_order c x q)
      ∙ append_assoc (taken_by c x q) (queue c (call x q).1) (sent c xs)
      ∙ ap (◌++◌ (taken_by c x q)) (run_order c xs (call x q).1)
      ∙ sym (append_assoc (taken_by c x q) (taken c xs (call x q).1) (queue c (run (x ∷ xs) q)))
