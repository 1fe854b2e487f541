-- ===== src/CodeQueue/Refine.antt =====
-- common/common_codequeue.h: no sequence of calls tells the ring from a list of packets with a bound
-- on the bytes that they take.
use lightframe.Common.{
  ℕ, ◌+◌, ◌^◌, ◌≤◌, ◌<◌, ◌≡◌, refl, ap, ap₂, ◌∙◌, Bool, Option, some, none, List, [], ◌∷◌, ◌++◌,
  arith, length, replicate, length-replicate, read, read-write, read_prefix, append-nil, ltb, leb,
  if◌then◌else◌, Status, ok, err, invalid_argument, full_queue, space_not_enough, empty_queue,
  invalid_package, Bool-cases, leb→le, ltb→lt, inl, inr,
}
use lightframe.CodeQueue.{Queue, initialize, push, pop, front}
use lightframe.CodeQueue.Holds.{Holds, initialize-Holds, frames, length-frames}
use lightframe.CodeQueue.Push.{push_lem, push_refuses}
use lightframe.CodeQueue.Pop.{pop_lem, pop_small, pop_empty}

-- What a client asks: to send a packet, or to receive one into a buffer of some size.
pub data Call : Type 0 where
  send : List ℕ → Call
  receive : ℕ → Call

-- The status, and the packet that was delivered.
abbrev Reply : Type 0
Reply = Status × List ℕ

abbrev deliver : Status → ℕ → Option (List ℕ) → List ℕ
deliver (err e) len dst = []
deliver ok len none = []
deliver ok len (some out) = read out 0 len

module _ (big : Bool) (cap : ℕ) where
  pub call : Call → Queue → Reply × Queue
  call (send p) q = let (ret, q') = push big cap (some p) (length p) q in ((ret, []), q')
  call (receive size) q =
      let (ret, len, dst, q') = pop big cap (some (replicate size 0)) size 0 q in
      ((ret, deliver ret len dst), q')

  pub run : List Call → Queue → List Reply
  run [] q = []
  run (c ∷ cs) q = let (r, q') = call c q in r ∷ run cs q'

-- The specification: the packets, the oldest first.
abbrev pub load : List (List ℕ) → ℕ
load [] = 0
load (p ∷ ps) = 4 + length p + load ps

module _ (cap : ℕ) where
  unfoldable pub spec_send : List ℕ → List (List ℕ) → Reply × List (List ℕ)
  spec_send p ps =
      if leb (length p) 0
      then ((err invalid_argument, []), ps)
      else if leb (length p + 4 + load ps + 8) cap
      then ((ok, []), ps ++ p ∷ [])
      else ((err (if leb cap (load ps + 8) then full_queue else space_not_enough), []), ps)

  unfoldable pub spec_receive : ℕ → List (List ℕ) → Reply × List (List ℕ)
  spec_receive size [] =
      if leb size 0 then ((err invalid_argument, []), []) else ((err empty_queue, []), [])
  spec_receive size (p ∷ ps) =
      if leb size 0
      then ((err invalid_argument, []), p ∷ ps)
      else if ltb size (length p)
      then ((err invalid_package, []), ps)
      else ((ok, p), ps)

  unfoldable pub spec_call : Call → List (List ℕ) → Reply × List (List ℕ)
  spec_call (send p) = spec_send p
  spec_call (receive size) = spec_receive size

  unfoldable pub spec_run : List Call → List (List ℕ) → List Reply
  spec_run [] ps = []
  spec_run (c ∷ cs) ps = let (r, ps') = spec_call c ps in r ∷ spec_run cs ps'

-- Every packet sent leaves room for its own length in a uint32_t.
abbrev AllShort : List Call → Type 0
AllShort [] = Unit
AllShort (send p ∷ cs) = (length p + 4 < 2 ^ 32) × AllShort cs
AllShort (receive size ∷ cs) = AllShort cs

length-frames-load : (big : Bool) (ps : List (List ℕ)) → length (frames big ps) ≡ load ps
length-frames-load big [] = refl
length-frames-load big (p ∷ ps) =
    length-frames big p ps ∙ ap (λ k. 4 + length p + k) (length-frames-load big ps)

-- One call: the reply is that of the specification, and the queue left holds what it says.
abbrev Follows : Bool → ℕ → Reply × Queue → Reply × List (List ℕ) → Type 0
Follows big cap (r, q) (r', ps) = (r ≡ r') × Holds big cap q ps

push_nothing :
    (big : Bool) (cap : ℕ) (p : List ℕ) (q : Queue)
    → length p ≤ 0
    → push big cap (some p) (length p) q ≡ (err invalid_argument, q)
unfolding push
push_nothing big cap p q h = ground arith

pop_nothing :
    (big : Bool) (cap : ℕ) (out : List ℕ) (size old : ℕ) (q : Queue)
    → size ≤ 0
    → pop big cap (some out) size old q ≡ (err invalid_argument, old, some out, q)
unfolding pop front
pop_nothing big cap out size old q h = ground arith

send-Follows :
    (big : Bool) (cap : ℕ) (p : List ℕ) (q : Queue) (ps : List (List ℕ))
    → Holds big cap q ps
    → length p + 4 < 2 ^ 32
    → Follows big cap (call big cap (send p) q) (spec_send cap p ps)
unfolding call spec_send
send-Follows big cap p q ps v short =
    let l = length-frames-load big ps in
    let n = length p in
    elim (Bool-cases (leb n 0)) [
      | inl e ↦ rw (e, push_nothing big cap p q (leb→le n 0 e)) (refl, v)
      | inr e ↦ elim (Bool-cases (leb (n + 4 + load ps + 8) cap)) [
        | inl f ↦
            let sent = push_lem big cap q ps v p n (ground arith) (ground arith) in
            let whole : read p 0 n ≡ p = rw (append-nil p) at (read_prefix p [] n refl) in
            rw (e, f) (ap (λ (s : Status). (s, [])) sent.0, rw whole at sent.1)
        | inr f ↦
            rw (e, f, push_refuses big cap q ps v p n (ground arith) (ground arith) short, l)
              (refl, v)
      ]
    ]

receive-Follows :
    (big : Bool) (cap size : ℕ) (q : Queue) (ps : List (List ℕ))
    → Holds big cap q ps
    → Follows big cap (call big cap (receive size) q) (spec_receive cap size ps)
unfolding call spec_receive
receive-Follows big cap size q [] v = elim (Bool-cases (leb size 0)) [
  | inl e ↦ rw (e, pop_nothing big cap (replicate size 0) size 0 q (leb→le size 0 e)) (refl, v)
  | inr e ↦ rw (e, pop_empty big cap q (replicate size 0) size 0 v (ground arith)) (refl, v)
]
receive-Follows big cap size q (p ∷ ps) v = elim (Bool-cases (leb size 0)) [
  | inl e ↦ rw (e, pop_nothing big cap (replicate size 0) size 0 q (leb→le size 0 e)) (refl, v)
  | inr e ↦ elim (Bool-cases (ltb size (length p))) [
    | inl f ↦
        let lost =
          pop_small big cap q p ps v (replicate size 0) size (ground arith) 0 (ltb→lt _ _ f) in
        rw (e, f, lost.0) (refl, lost.1)
    | inr f ↦
        let out = replicate size 0 in
        let got = pop_lem big cap q p ps v out size (ground arith) 0 (ground arith) in
        let room : 0 + length p ≤ length out = ground (arith, length-replicate {A = ℕ} size 0) in
        rw (e, f, got.0)
          (ap (λ (x : List ℕ). (ok, x)) (read-write out 0 p (length p) refl room), got.1)
  ]
]

run_from :
    (big : Bool) (cap : ℕ) (cs : List Call) (q : Queue) (ps : List (List ℕ))
    → Holds big cap q ps
    → AllShort cs
    → run big cap cs q ≡ spec_run cap cs ps
unfolding run spec_run spec_call
run_from big cap [] q ps v s = refl
run_from big cap (send p ∷ cs) q ps v s =
    let one = send-Follows big cap p q ps v s.0 in ap₂ ◌∷◌ one.0 (run_from big cap cs _ _ one.1 s.1)
run_from big cap (receive size ∷ cs) q ps v s =
    let one = receive-Follows big cap size q ps v in ap₂ ◌∷◌ one.0 (run_from big cap cs _ _ one.1 s)

-- Any sequence of Push and Pop calls on an initialised queue gives the replies of the specification: a
-- list of packets whose bytes, with four for each packet, stay eight below the capacity. Packets come
-- out whole, once, and in the order in which they went in; an empty packet, one that does not fit,
-- an empty queue and a destination too small are reported as the specification says.
pub run-initialize :
    (big : Bool) (cap : ℕ) (cs : List Call)
    → 8 < cap
    → cap ≤ 2 ^ 31
    → AllShort cs
    → run big cap cs (initialize big cap).1 ≡ spec_run cap cs []
run-initialize big cap cs h k s =
    run_from big cap cs (initialize big cap).1 [] (initialize-Holds big cap h k).1 s
