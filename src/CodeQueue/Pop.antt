-- ===== src/CodeQueue/Pop.antt =====
-- common/common_codequeue.h: Front and Pop give the oldest packet, and Pop removes it.
use lightframe.Common.{
  ℕ, ◌+◌, ◌%◌, ◌^◌, ◌≤◌, ◌<◌, ◌≡◌, refl, sym, ◌∙◌, Bool, some, List, [], ◌∷◌, ◌++◌, append_assoc,
  arith, length, replicate, write, write_whole, add32, ok, err, empty_queue, invalid_package,
}
use lightframe.Codec.{memory}
use lightframe.Codec.Bytes.{value-memory}
use lightframe.Ring.{mod_once, ring, ring_split}
use lightframe.CodeQueue.{
  Queue, refused, got, set_head, load_loop, copy_out, front, pop, pop_length,
}
use lightframe.CodeQueue.Copies.{load_loop-ring, copy_out-ring}
use lightframe.CodeQueue.Holds.{Holds, frames, length-frames, length-memory, used_info, sizes}

module _ (cap head n len : ℕ) where
  -- Where the used bytes do not pass the end, neither does the packet.
  packet_before_tail :
      head < cap
      → 4 + len ≤ n
      → n + 8 ≤ cap
      → (head + 4) % cap < (head + n) % cap
      → (head + 4) % cap + len ≤ cap
  packet_before_tail h k r lt = ground (arith, mod_once (head + n) cap, mod_once (head + 4) cap)

  moves_on :
      head < cap
      → cap ≤ 2 ^ 31
      → 4 + len + 8 ≤ cap
      → (add32 ((head + 4) % cap) len % cap ≡ (head + (4 + len)) % cap)
        × ((add32 head len + 4) % cap ≡ (head + (4 + len)) % cap)
        × ((head + (4 + len)) % cap < cap)
  moves_on h s r =
      let b : (head + 4) % cap < cap = ground (arith, mod_once (head + 4) cap) in
      let e : add32 ((head + 4) % cap) len ≡ (head + 4) % cap + len = omega arith in
      let f : add32 head len + 4 ≡ head + (4 + len) = omega arith in
      rw (e, f)
        (
          ground (
            arith,
            mod_once (head + 4) cap,
            mod_once ((head + 4) % cap + len) cap,
            mod_once (head + (4 + len)) cap,
          ),
          refl,
          ground (arith, mod_once (head + (4 + len)) cap),
        )

module _ (big : Bool) (cap : ℕ) (q : Queue) (p : List ℕ) (ps : List (List ℕ))
    (v : Holds big cap q (p ∷ ps)) where
  -- the queue without its oldest packet
  abbrev pub popped : Queue
  popped = record q { head = (q.head + (4 + length p)) % cap }

  sizes_left :
      (length (frames big (p ∷ ps)) ≡ 4 + length p + length (frames big ps))
      × (0 < length p)
      × (4 + length p + length (frames big ps) + 8 ≤ cap)
  sizes_left = omega (arith, length-frames big p ps, v.nonempty.0, v.reserved)

  parts :
      (ring cap q.buffer q.head 4 ≡ memory big 4 (length p))
      × (ring cap q.buffer ((q.head + 4) % cap) (length p) ≡ p)
      × (ring cap q.buffer popped.head (length (frames big ps)) ≡ frames big ps)
  parts =
      let n = length (frames big ps) in
      let whole : ring cap q.buffer q.head (4 + (length p + n))
          ≡ memory big 4 (length p) ++ (p ++ frames big ps) =
        (let e : 4 + (length p + n) ≡ length (frames big (p ∷ ps)) = omega (arith, sizes_left) in
          rw e v.bytes)
        ∙ append_assoc (memory big 4 (length p)) p (frames big ps) in
      let one : (ring cap q.buffer q.head 4 ≡ memory big 4 (length p))
          × (ring cap q.buffer ((q.head + 4) % cap) (length p + n) ≡ p ++ frames big ps) =
        ring_split cap q.buffer q.head 4 (length p + n) _ _ v.head_in (omega (arith, v.large))
          (sym (length-memory big 4 (length p))) whole in
      let b : (q.head + 4) % cap < cap =
        ground (arith, mod_once (q.head + 4) cap, v.head_in, v.large) in
      let two : (ring cap q.buffer ((q.head + 4) % cap) (length p) ≡ p)
          × (ring cap q.buffer (((q.head + 4) % cap + length p) % cap) n ≡ frames big ps) =
        ring_split cap q.buffer ((q.head + 4) % cap) (length p) n p (frames big ps) b
          (omega (arith, sizes_left)) refl one.1 in
      let place : ((q.head + 4) % cap + length p) % cap ≡ popped.head = ground (
        arith,
        sizes_left,
        v.head_in,
        mod_once (q.head + 4) cap,
        mod_once ((q.head + 4) % cap + length p) cap,
        mod_once (q.head + (4 + length p)) cap,
      ) in
      (one.0, two.0, rw place at two.1)

  -- Without its oldest packet the queue holds the others.
  popped-Holds : Holds big cap popped ps
  popped-Holds =
      let n = length (frames big ps) in
      record {
        large = v.large;
        small = v.small;
        allocated = v.allocated;
        head_in =
            (moves_on cap q.head n (length p) v.head_in v.small (omega (arith, sizes_left))).2;
        tail_in = v.tail_in;
        tail_at = ground (
          arith,
          sizes_left,
          v.tail_at,
          v.head_in,
          mod_once (q.head + length (frames big (p ∷ ps))) cap,
          mod_once (q.head + (4 + length p)) cap,
          mod_once (popped.head + n) cap,
        );
        reserved = omega (arith, sizes_left);
        bytes = parts.2;
        nonempty = v.nonempty.1;
      }

  module _ (out : List ℕ) (size : ℕ) (pos : 0 < size) where
    loaded :
        load_loop big cap 4 q.buffer 0 (replicate 4 0) q.head
        ≡ (memory big 4 (length p), (q.head + 4) % cap)
    loaded =
        load_loop-ring big cap 4 q.buffer 0 (replicate 4 0) q.head v.head_in
          (omega (arith, v.large))
        ∙ rw parts.0 (
            rw (
              write_whole (replicate 4 0) (memory big 4 (length p))
                (sym (length-memory big 4 (length p)))))

    copied : copy_out big cap q.buffer q.tail ((q.head + 4) % cap) out (length p) ≡ write out 0 p
    copied =
        let b : (q.head + 4) % cap < cap =
          ground (arith, mod_once (q.head + 4) cap, v.head_in, v.large) in
        let n = length (frames big (p ∷ ps)) in
        copy_out-ring big cap q.buffer q.tail ((q.head + 4) % cap) out (length p) b
          (omega (arith, sizes_left))
          (rw v.tail_at (
            packet_before_tail cap q.head n (length p) v.head_in (omega (arith, sizes_left))
              v.reserved))
        ∙ rw parts.1

    -- Front with room for the oldest packet copies it out and leaves the queue alone.
    front_lem :
        length p ≤ size
        → front big cap (some out) size q ≡ got popped.head (length p) (write out 0 p)
    unfolding front
    front_lem room = ground (
      arith,
      used_info big cap q (p ∷ ps) v,
      (sizes big cap q (p ∷ ps) v).2,
      sizes_left,
      loaded,
      value-memory big 4 (length p) (omega (arith, sizes_left, v.small)),
      copied,
      moves_on cap q.head 0 (length p) v.head_in v.small (omega (arith, sizes_left)),
      v.head_in,
      v.tail_in,
      v.large,
    )

    front_small : size < length p → front big cap (some out) size q ≡ refused invalid_package popped
    unfolding front set_head
    front_small room = ground (
      arith,
      used_info big cap q (p ∷ ps) v,
      (sizes big cap q (p ∷ ps) v).2,
      sizes_left,
      loaded,
      value-memory big 4 (length p) (omega (arith, sizes_left, v.small)),
      moves_on cap q.head 0 (length p) v.head_in v.small (omega (arith, sizes_left)),
      v.head_in,
      v.tail_in,
      v.large,
    )

    -- Pop with room for the oldest packet copies it out whole, reports its length, and leaves a queue
    -- that holds the others in order.
    pub pop_lem :
        (old : ℕ)
        → length p ≤ size
        → (pop big cap (some out) size old q ≡ (ok, length p, some (write out 0 p), popped))
          × Holds big cap popped ps
    unfolding pop set_head
    pop_lem old room =
        let inside =
          (moves_on cap q.head 0 (length p) v.head_in v.small (omega (arith, sizes_left))).2 in
        (rw (front_lem room, pop) (ground (arith, inside)), popped-Holds)

    -- Pop with a destination too small for the oldest packet reports an error and drops that packet:
    -- the destination is untouched, and the queue holds the others.
    pub pop_small :
        (old : ℕ)
        → size < length p
        → (pop big cap (some out) size old q ≡ (err invalid_package, old, some out, popped))
          × Holds big cap popped ps
    unfolding pop
    pop_small old room = (rw (front_small room, pop), popped-Holds)

    -- Front, and then Pop of the length that it reported, do what one Pop into the same destination does.
    pub pop_length-front :
        (old : ℕ)
        → length p ≤ size
        → (front big cap (some out) size q ≡ got popped.head (length p) (write out 0 p))
          × (pop_length big cap (length p) q ≡ (ok, popped))
          × (pop big cap (some out) size old q ≡ (ok, length p, some (write out 0 p), popped))
    unfolding pop_length set_head
    pop_length-front old room =
        let moved =
          moves_on cap q.head 0 (length p) v.head_in v.small (omega (arith, sizes_left)) in
        (front_lem room, ground (arith, moved), (pop_lem old room).0)

-- Pop on a queue that holds nothing reports it and changes nothing.
pub pop_empty :
    (big : Bool) (cap : ℕ) (q : Queue) (out : List ℕ) (size old : ℕ)
    → Holds big cap q []
    → 0 < size
    → pop big cap (some out) size old q ≡ (err empty_queue, old, some out, q)
unfolding pop front
pop_empty big cap q out size old v h = ground (arith, (sizes big cap q [] v).2, v.large)
