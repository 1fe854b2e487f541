-- ===== src/NetQueue/Tests.antt =====
-- Runs of the net queues and of the command queue.
use lightframe.Common.{
  ℕ, ◌≡◌, refl, arith, false, none, some, List, [], ◌∷◌, ◌++◌, err, null_pointer,
}
use lightframe.NetQueue.{
  FrameNetQueue, push_recv_ss_queue, command_push, command_pop, is_recv_ss_queue_empty,
}
use lightframe.NetQueue.Order.{
  Call, push, pop, recv_ss, recv_cs, send_cs, queue, sent, taken, run, run_order,
}
use lightframe.NetQueue.Served.{run_serves}

abbrev busy : FrameNetQueue ℕ
busy = record { recv_ss = 1 ∷ []; send_ss = []; recv_cs = 5 ∷ 6 ∷ []; send_cs = [] }

abbrev calls : List (Call ℕ)
calls =
    push recv_ss (some 2)
    ∷ push send_cs (some 9)
    ∷ pop recv_ss
    ∷ push recv_ss none
    ∷ pop send_cs
    ∷ pop send_cs
    ∷ []

run_order_example :
    queue recv_ss busy ++ sent recv_ss calls
    ≡ taken recv_ss calls busy ++ queue recv_ss (run calls busy)
run_order_example = run_order recv_ss calls busy

abbrev serving : List (Call ℕ)
serving = push recv_cs (some 7) ∷ pop recv_cs ∷ pop recv_ss ∷ pop recv_cs ∷ []

run_serves_example : (rest : List ℕ) × (taken recv_cs serving busy ≡ 5 ∷ 6 ∷ rest)
run_serves_example = run_serves recv_cs serving busy (5 ∷ []) [] 6 refl (omega arith)

null_refused : push_recv_ss_queue none busy ≡ (err null_pointer, busy)
unfolding push_recv_ss_queue
null_refused = refl

not_empty : is_recv_ss_queue_empty busy ≡ false
unfolding is_recv_ss_queue_empty
not_empty = refl

-- The command queue hands out a NULL that was pushed as it does where it is empty.
command_null : (command_pop {P = ℕ} (command_push none []).1).1 ≡ (command_pop {P = ℕ} []).1
unfolding command_push command_pop
command_null = refl
