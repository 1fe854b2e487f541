-- ===== src/LogQueue/Tests.antt =====
-- Runs of the log queue, and the theorems about it at concrete inputs.
use lightframe.Common.{
  ℕ, ◌≡◌, refl, false, none, some, List, [], ◌∷◌, ◌++◌, arith, replicate, get_or, ok, err,
  invalid_argument,
}
use lightframe.Codec.{memory}
use lightframe.CodeQueue
use lightframe.CodeQueue.{Queue}
use lightframe.CodeQueue.Holds.{Holds, initialize-Holds}
use lightframe.LogQueue.{Log, widen, push_log, pop_log}
use lightframe.LogQueue.Trips.{pop_log-push_log}

abbrev hey : List ℕ
hey = b'h' ∷ b'e' ∷ b'y' ∷ []

abbrev date : List ℕ
date = b'2' ∷ b'0' ∷ b'1' ∷ b'2' ∷ b'0' ∷ b'3' ∷ b'0' ∷ b'4' ∷ []

abbrev fresh : Queue
fresh = (CodeQueue.initialize false 64).1

abbrev no_log : Log
no_log = record { msg = replicate 6 0; kind = 0; name = []; id1 = 0; id2 = 0; date = replicate 9 0 }

no_message :
    push_log false 64 32 (replicate 32 0) date none 3 7 200 none fresh
    ≡ (err invalid_argument, fresh)
unfolding push_log
no_message = refl

pop_log-push_log_example :
    let (ret, q') =
      push_log false 64 32 (replicate 32 0) date (some (hey ++ 0 ∷ [])) 3 7 200 none fresh in
    (ret ≡ ok)
    × (q'' : Queue) × (pop_log false 64 32 (replicate 32 0) date 5 false false (no_log, q') ≡ (
      ok,
      record no_log {
        msg = hey ++ 0 ∷ 0 ∷ 0 ∷ [];
        kind = 3;
        id1 = widen (get_or (memory false 4 7) 0 0);
        id2 = widen (get_or (memory false 4 200) 0 0);
        date = date ++ 0 ∷ [];
      },
      q'',
    ))
    × Holds false 64 q'' []
pop_log-push_log_example =
    pop_log-push_log false 64 32 (replicate 32 0) date hey 3 7 200 date refl (omega arith) refl
      no_log fresh [] none 5 (initialize-Holds false 64 (omega arith) (omega arith)).1
      (omega arith, (omega arith, (omega arith, tt))) refl (omega arith) (omega arith) (omega arith)
      (omega arith)
