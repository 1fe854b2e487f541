-- ===== src/CodeQueue.antt =====
-- common/common_codequeue.h: CCodeQueue<CAPACITY>, a queue of byte packets in a ring. Each packet is
-- preceded by its length, in the four bytes of a uint32_t as the machine keeps it.
pub mod Copies
pub mod Holds
pub mod Push
pub mod Pop
pub mod Refine
mod Tests
use lightframe.Common.{
  ℕ, zero, suc, ◌+◌, ◌-◌, ◌*◌, ◌%◌, ◌^◌, Bool, ◌||◌, Option, none, some, List, [], ◌∷◌, ltb, leb,
  ◌==◌, if◌then◌else◌, get_or, set, replicate, read, write, add32, sub32, Error, Status, ok, err,
  invalid_argument, queue_not_initialized, full_queue, queue_shattered, space_not_enough,
  empty_queue, invalid_package, invalid_head, invalid_tail,
}
use lightframe.Codec.{memory, value}

pub record Queue : Type 0 where
  pub size : ℕ
  pub head : ℕ
  pub tail : ℕ
  pub offset : ℕ
  pub buffer : List ℕ

-- How Front ends: with an error and the queue that it leaves, or with the place past the packet, the
-- packet's length and the filled destination.
pub data Fetched : Type 0 where
  refused : Error → Queue → Fetched
  got : ℕ → ℕ → List ℕ → Fetched

-- `big` is the byte order of the machine, and `cap` is CAPACITY.
module _ (big : Bool) (cap : ℕ) where
  pub initialize : Status × Queue
  initialize =
      (ok, record { size = cap; head = 0; tail = 0; offset = 4 * 4; buffer = replicate cap 0 })

  pub set_head : ℕ → Queue → Status × Queue
  set_head head q = if ltb cap head then (err invalid_head, q) else (ok, record q { head = head })

  pub set_tail : ℕ → Queue → Status × Queue
  set_tail tail q = if ltb cap tail then (err invalid_tail, q) else (ok, record q { tail = tail })

  unfoldable pub set_boundary : ℕ → ℕ → Queue → Status × Queue
  set_boundary head tail q =
      if ltb cap head
      then (err invalid_head, q)
      else if ltb cap tail
      then (err invalid_tail, q)
      else (ok, record q { head = head; tail = tail })

  -- Eight bytes (enmReservedCodeLength) stay free, so a full queue is not taken for an empty one.
  pub get_free_size : Queue → ℕ
  get_free_size q =
      if leb cap 8
      then 0
      else let free = if q.head == q.tail then cap else sub32 (add32 q.head cap) q.tail % cap in
        if ltb free 8 then 0 else free - 8

  -- Head, tail and free size; the caller's zeros where the capacity is too small.
  pub get_free_info : Queue → ℕ × ℕ × ℕ
  get_free_info q =
      if leb cap 8
      then (0, 0, 0)
      else let free = if q.head == q.tail then cap else sub32 (add32 q.head cap) q.tail % cap in
        (q.head, q.tail, (if ltb free 8 then 0 else free - 8))

  pub get_used_size : Queue → ℕ
  get_used_size q = if leb cap 8 then 0 else sub32 (add32 q.tail cap) q.head % cap

  pub get_used_info : Queue → ℕ × ℕ × ℕ
  get_used_info q =
      if leb cap 8 then (0, 0, 0) else (q.head, q.tail, sub32 (add32 q.tail cap) q.head % cap)

  pub is_full : Queue → Bool
  is_full q = leb (get_free_size q) 0

  pub is_empty : Queue → Bool
  is_empty q = leb (get_used_size q) 0

  -- the n rounds left of the loop that stores the length's bytes
  pub store_loop : ℕ → List ℕ → ℕ → List ℕ → ℕ → List ℕ × ℕ
  store_loop zero p i buf t = (buf, t)
  store_loop (suc n) p i buf t = store_loop n p (i + 1) (set buf t (get_or p i 0)) ((t + 1) % cap)

  -- the copy of the packet into the buffer, in two parts where it passes the end. A memcpy past the
  -- buffer, which the check for space lets through only where 4 + len wraps, is undefined in the code;
  -- here its bytes past the end are dropped.
  pub copy_in : List ℕ → ℕ → ℕ → List ℕ → ℕ → List ℕ
  copy_in buf head t bytes len =
      if ltb t head
      then write buf t (read bytes 0 len)
      else if ltb (cap - t) len
      then write (write buf t (read bytes 0 (cap - t))) 0 (read bytes (cap - t) (len - (cap - t)))
      else write buf t (read bytes 0 len)

  pub push : Option (List ℕ) → ℕ → Queue → Status × Queue
  push packet len q = elim packet [
    | none ↦ (err invalid_argument, q)
    | some bytes ↦
        if leb len 0
        then (err invalid_argument, q)
        else if leb cap 0
        then (err queue_not_initialized, q)
        else if is_full q
        then (err full_queue, q)
        else let (head, tail, free) = get_free_info q in
          if leb cap head || leb cap tail
          then (err queue_shattered, (set_boundary 0 0 q).1)
          else if ltb free (add32 4 len)
          then (err space_not_enough, q)
          else let (buf, t) = store_loop 4 (memory big 4 len) 0 q.buffer tail in
            set_tail (add32 t len % cap) (record q { buffer = copy_in buf head t bytes len })
  ]

  -- the n rounds left of the loop that loads the length's bytes
  pub load_loop : ℕ → List ℕ → ℕ → List ℕ → ℕ → List ℕ × ℕ
  load_loop zero buf i p h = (p, h)
  load_loop (suc n) buf i p h = load_loop n buf (i + 1) (set p i (get_or buf h 0)) ((h + 1) % cap)

  -- the copy of the packet out of the buffer
  pub copy_out : List ℕ → ℕ → ℕ → List ℕ → ℕ → List ℕ
  copy_out buf tail h out len =
      if ltb h tail
      then write out 0 (read buf h len)
      else if ltb (cap - h) len
      then write (write out 0 (read buf h (cap - h))) (cap - h) (read buf 0 (len - (cap - h)))
      else write out 0 (read buf h len)

  pub front : Option (List ℕ) → ℕ → Queue → Fetched
  front dst size q = elim dst [
    | none ↦ refused invalid_argument q
    | some out ↦
        if leb size 0
        then refused invalid_argument q
        else if leb cap 0
        then refused queue_not_initialized q
        else if is_empty q
        then refused empty_queue q
        else let (head, tail, used) = get_used_info q in
          if leb cap head || leb cap tail
          then refused queue_shattered (set_boundary 0 0 q).1
          else if ltb used 4
          then refused queue_shattered (set_boundary 0 0 q).1
          else let (p, h) = load_loop 4 q.buffer 0 (replicate 4 0) head in
            let len = value big p in
            if leb len 0 || ltb (used - 4) len
            then refused invalid_package (set_boundary 0 0 q).1
            else if ltb size len
            then refused invalid_package (set_head (add32 h len % cap) q).1
            else got (add32 h len % cap) len (copy_out q.buffer tail h out len)
  ]

  -- Pop(len): after Front, the caller drops the packet of that length.
  pub pop_length : ℕ → Queue → Status × Queue
  pop_length len q = set_head ((add32 q.head len + 4) % cap) q

  -- Pop(buffer, size, length): the steps of Front, and the new head. The results are the status, the
  -- packet's length, the destination and the queue.
  pub pop : Option (List ℕ) → ℕ → ℕ → Queue → Status × ℕ × Option (List ℕ) × Queue
  pop dst size length q = elim (front dst size q) [
    | refused e q' ↦ (err e, length, dst, q')
    | got head len out ↦ let (ret, q') = set_head head q in (ret, len, some out, q')
  ]
