-- ===== src/NetQueue/Served.antt =====
-- frame_netqueue.cpp: when a packet that waits in one of the four queues is handed out.
use lightframe.Common.{
  bool_cases, inl, inr, ℕ, suc, ◌<◌, ◌≡◌, ap, ◌∙◌, List, [], ◌∷◌, ◌++◌, append_assoc, Bool, true,
  if◌then◌else◌, arith, length,
}
use mathlib.Core.Path.{subst}
use lightframe.NetQueue.{FrameNetQueue}
use lightframe.NetQueue.Order.{
  Channel, is_channel, Call, push, pop, queue, call, sent_by, taken, queue-push, pop-front,
  pop-other,
}

module _ {P : Type 0} where
  -- The calls of a run that pop from channel c.
  abbrev pub pops : Channel → List (Call P) → ℕ
  pops c [] = 0
  pops c (push d p ∷ xs) = pops c xs
  pops c (pop d ∷ xs) = if is_channel c d then suc (pops c xs) else pops c xs

  -- The first pop of the channel, given what the rest of the run does.
  serves_front :
      (c d : Channel) (xs : List (Call P)) (q : FrameNetQueue P) (before after : List P) (p : P)
      → is_channel c d ≡ true
      → ((bs : List P)
          → queue c (call (pop d) q).1 ≡ bs ++ (p ∷ after)
          → length bs < pops c xs
          → (rest : List P) × (taken c xs (call (pop d) q).1 ≡ bs ++ (p ∷ rest)))
      → queue c q ≡ before ++ (p ∷ after)
      → length before < suc (pops c xs)
      → (rest : List P) × (taken c (pop d ∷ xs) q ≡ before ++ (p ∷ rest))
  serves_front c d xs q [] after p k ih e h =
      let q' = (call (pop d) q).1 in
      (taken c xs q', ap (λ l. l ++ taken c xs q') (pop-front c d q p after k e).0)
  serves_front c d xs q (b ∷ bs) after p k ih e h =
      let q' = (call (pop d) q).1 in
      let (a, f) = pop-front c d q b (bs ++ (p ∷ after)) k e in
      let (rest, r) = ih bs f (omega arith) in (rest, ap (λ l. l ++ taken c xs q') a ∙ ap (◌∷◌ b) r)

  left_pops :
      (c d : Channel) (xs : List (Call P)) (before : List P) {b : Bool}
      → is_channel c d ≡ b
      → length before < pops c (pop d ∷ xs)
      → length before < (if b then suc (pops c xs) else pops c xs)
  left_pops c d xs before = subst (λ b. length before < (if b then suc (pops c xs) else pops c xs))

  -- A packet with others before it in a channel is handed out by the pop after theirs, in any run with
  -- enough pops of that channel, whatever else is pushed and popped in between.
  pub run_serves :
      (c : Channel) (xs : List (Call P)) (q : FrameNetQueue P) (before after : List P) (p : P)
      → queue c q ≡ before ++ (p ∷ after)
      → length before < pops c xs
      → (rest : List P) × (taken c xs q ≡ before ++ (p ∷ rest))
  run_serves c [] q before after p e h = absurd (omega arith)
  run_serves c (push d o ∷ xs) q before after p e h =
      run_serves c xs (call (push d o) q).1 before (after ++ sent_by c (push d o)) p
        (queue-push c d o q
          ∙ ap (λ l. l ++ sent_by c (push d o)) e
          ∙ append_assoc before (p ∷ after) (sent_by c (push d o)))
        h
  run_serves c (pop d ∷ xs) q before after p e h = elim (bool_cases (is_channel c d)) [
    | inl k ↦
        serves_front c d xs q before after p k (λ bs. run_serves c xs (call (pop d) q).1 bs after p)
          e (left_pops c d xs before k h)
    | inr k ↦
        let (a, b) = pop-other c d q k in
        let (rest, r) =
          run_serves c xs (call (pop d) q).1 before after p (b ∙ e) (left_pops c d xs before k h) in
        (rest, ap (λ l. l ++ taken c xs (call (pop d) q).1) a ∙ r)
  ]
