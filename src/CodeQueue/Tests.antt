-- ===== src/CodeQueue/Tests.antt =====
-- Runs of the packet queue, and the theorems about it at concrete inputs.
use lightframe.Common.{
  ◌%◌, add32, ◌<◌, ◌≤◌, ℕ, ◌+◌, ◌-◌, ◌^◌, ◌≡◌, refl, true, false, some, List, [], ◌∷◌, ◌++◌, arith,
  replicate, length, read, write, ok, err, full_queue, space_not_enough, empty_queue,
  invalid_package, invalid_argument, if◌then◌else◌, leb,
}
use lightframe.Codec.{memory, little}
use lightframe.CodeQueue.{
  store_loop, copy_in, set_tail, Queue, got, initialize, push, pop, front, pop_length,
}
use lightframe.CodeQueue.Holds.{Holds, frames, initialize-Holds}
use lightframe.CodeQueue.Push.{push_lem, push_refuses, push_check_wraps}
use lightframe.CodeQueue.Pop.{popped, pop_lem, pop_small, pop_length-front}
use lightframe.CodeQueue.Refine.{
  Call, send, receive, run, spec_run, spec_call, spec_send, spec_receive, run-initialize,
}

-- A ring of 24 bytes with a packet that goes round the end.
abbrev wrapped : Queue
wrapped = record {
  size = 24;
  head = 18;
  tail = 2;
  offset = 16;
  buffer = 5 ∷ 6 ∷ (replicate 16 9 ++ (4 ∷ 0 ∷ 0 ∷ 0 ∷ 3 ∷ 4 ∷ []));
}

abbrev packet : List ℕ
packet = 3 ∷ 4 ∷ 5 ∷ 6 ∷ []

wrapped-Holds : Holds false 24 wrapped (packet ∷ [])
unfolding memory little
wrapped-Holds = record {
  large = omega arith;
  small = omega arith;
  allocated = omega arith;
  head_in = omega arith;
  tail_in = omega arith;
  tail_at = refl;
  reserved = omega arith;
  bytes = refl;
  nonempty = omega arith;
}

fresh-Holds : Holds false 24 (initialize false 24).1 []
fresh-Holds = (initialize-Holds false 24 (omega arith) (omega arith)).1

abbrev script : List Call
script = send (1 ∷ 2 ∷ []) ∷ send (replicate 7 3) ∷ send [] ∷ receive 1 ∷ receive 9 ∷ receive 9 ∷ []

-- The second packet does not fit, the third is empty, and the first is lost to a short destination.
spec_run-script :
    spec_run 24 script []
    ≡ (ok, [])
      ∷ (err space_not_enough, [])
      ∷ (err invalid_argument, [])
      ∷ (err invalid_package, [])
      ∷ (err empty_queue, [])
      ∷ (err empty_queue, [])
      ∷ []
unfolding spec_run spec_call spec_send spec_receive
spec_run-script = refl

run-initialize_example : run false 24 script (initialize false 24).1 ≡ spec_run 24 script []
run-initialize_example = run-initialize false 24 script (omega arith) (omega arith) (omega arith)

initialize-Holds_example : ((initialize true 24).0 ≡ ok) × Holds true 24 (initialize true 24).1 []
initialize-Holds_example = initialize-Holds true 24 (omega arith) (omega arith)

push_lem_example :
    let (ret, q') = push false 24 (some (7 ∷ 8 ∷ [])) 2 (initialize false 24).1 in
    (ret ≡ ok) × Holds false 24 q' (read (7 ∷ 8 ∷ []) 0 2 ∷ [])
push_lem_example =
    push_lem false 24 (initialize false 24).1 [] fresh-Holds (7 ∷ 8 ∷ []) 2 (omega arith)
      (omega arith)

push_refuses_example : push false 24 (some packet) 5 wrapped ≡ (
  err (if leb 24 (length (frames false (packet ∷ [])) + 8) then full_queue else space_not_enough),
  wrapped,
)
unfolding memory little
push_refuses_example =
    push_refuses false 24 wrapped (packet ∷ []) wrapped-Holds packet 5 (omega arith) (omega arith)
      (omega arith)

push_check_wraps_example :
    let (buf, t) =
      store_loop false 24 4 (memory false 4 (2 ^ 32 - 2)) 0 wrapped.buffer wrapped.tail in
    (push false 24 (some packet) (2 ^ 32 - 2) wrapped
      ≡ set_tail false 24
          (add32 t (2 ^ 32 - 2) % 24)
          (record wrapped { buffer = copy_in false 24 buf wrapped.head t packet (2 ^ 32 - 2) }))
    × (t < wrapped.head → 24 < t + (2 ^ 32 - 2))
    × (wrapped.head ≤ t → (24 - t < 2 ^ 32 - 2) × (24 < 2 ^ 32 - 2 - (24 - t)))
unfolding memory little
push_check_wraps_example =
    push_check_wraps false 24 wrapped (packet ∷ []) wrapped-Holds packet (2 ^ 32 - 2) (omega arith)
      (omega arith) (omega arith) (omega arith) (omega arith) (omega arith)

abbrev left : Queue
left = popped false 24 wrapped packet [] wrapped-Holds

pop_lem_example :
    (pop false 24 (some (replicate 5 0)) 5 0 wrapped
      ≡ (ok, 4, some (write (replicate 5 0) 0 packet), left))
    × Holds false 24 left []
pop_lem_example =
    pop_lem false 24 wrapped packet [] wrapped-Holds (replicate 5 0) 5 (omega arith) 0 (omega arith)

pop_small_example :
    (pop false 24 (some (replicate 5 0)) 3 0 wrapped
      ≡ (err invalid_package, 0, some (replicate 5 0), left))
    × Holds false 24 left []
pop_small_example =
    pop_small false 24 wrapped packet [] wrapped-Holds (replicate 5 0) 3 (omega arith) 0
      (omega arith)

pop_length-front_example :
    (front false 24 (some (replicate 5 0)) 5 wrapped
      ≡ got left.head 4 (write (replicate 5 0) 0 packet))
    × (pop_length false 24 4 wrapped ≡ (ok, left))
    × (pop false 24 (some (replicate 5 0)) 5 0 wrapped
        ≡ (ok, 4, some (write (replicate 5 0) 0 packet), left))
pop_length-front_example =
    pop_length-front false 24 wrapped packet [] wrapped-Holds (replicate 5 0) 5 (omega arith) 0
      (omega arith)
