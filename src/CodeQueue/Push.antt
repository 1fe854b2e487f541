-- ===== src/CodeQueue/Push.antt =====
-- common/common_codequeue.h: Push appends one packet, or refuses it and changes nothing.
use native.Mathlib.Nat.{mod-lt}
use lightframe.Common.{
  ℕ, ◌+◌, ◌-◌, ◌%◌, ◌^◌, ◌≤◌, ◌<◌, ◌≡◌, refl, sym, ap, ◌∙◌, Bool, some, List, [], ◌∷◌, ◌++◌,
  append-nil, arith, length, read, length-read, read_prefix, length-append, leb, if◌then◌else◌,
  add32, ok, err, full_queue, space_not_enough,
}
use lightframe.Codec.{memory}
use lightframe.Ring.{mod_once, put_ring, length-put_ring, ring-put_ring, put_ring-append}
use lightframe.CodeQueue.{Queue, set_tail, store_loop, copy_in, push}
use lightframe.CodeQueue.Copies.{store_loop-put_ring, copy_in-put_ring}
use lightframe.CodeQueue.Holds.{
  Holds, frames, length-memory, frames-append, AllNonempty-append, free_info, sizes,
}

-- Where the free bytes lie between tail and head, the packet ends before the head.
room_before_head :
    (cap head tail n len : ℕ)
    → head < cap
    → len + 4 + n + 8 ≤ cap
    → tail ≡ (head + n) % cap
    → (tail + 4) % cap < head
    → (tail + 4) % cap + len ≤ cap
room_before_head cap head tail n len h r e lt =
    let b : tail < cap = rw e (ground (arith, mod_once (head + n) cap)) in
    ground (arith, mod_once (head + n) cap, mod_once (tail + 4) cap)

moves_on :
    (cap tail len : ℕ)
    → tail < cap
    → 8 < cap
    → cap ≤ 2 ^ 31
    → len + 12 ≤ cap
    → add32 ((tail + 4) % cap) len % cap ≡ (tail + (4 + len)) % cap
moves_on cap tail len h l s r =
    let b : (tail + 4) % cap < cap = ground (arith, mod_once (tail + 4) cap) in
    let e : add32 ((tail + 4) % cap) len ≡ (tail + 4) % cap + len = omega arith in
    rw e (
      ground (
        arith,
        mod_once (tail + 4) cap,
        mod_once ((tail + 4) % cap + len) cap,
        mod_once (tail + (4 + len)) cap,
      ))

module _ (big : Bool) (cap : ℕ) (q : Queue) (ps : List (List ℕ)) (v : Holds big cap q ps) where
  module _ (bytes : List ℕ) (len : ℕ) (pos : 0 < len) where
    -- the queue that a successful call leaves
    abbrev pushed : Queue
    pushed = record q {
      tail = (q.tail + (4 + len)) % cap;
      buffer = put_ring cap q.buffer q.tail (memory big 4 len ++ read bytes 0 len);
    }

    stored :
        len + 4 + length (frames big ps) + 8 ≤ cap
        → (let (buf, t) = store_loop big cap 4 (memory big 4 len) 0 q.buffer q.tail in
            copy_in big cap buf q.head t bytes len)
          ≡ put_ring cap q.buffer q.tail (memory big 4 len ++ read bytes 0 len)
    stored room =
        let n = length (frames big ps) in
        let l = length-memory big 4 len in
        let all : read (memory big 4 len) 0 4 ≡ memory big 4 len =
          rw (append-nil (memory big 4 len)) at (read_prefix (memory big 4 len) [] 4 (sym l)) in
        let t = (q.tail + 4) % cap in
        let tb : t < cap = ground (arith, mod_once (q.tail + 4) cap, v.tail_in, v.large) in
        let gap : t < q.head → t + len ≤ cap =
          room_before_head cap q.head q.tail n len v.head_in room v.tail_at in
        rw
          (
            store_loop-put_ring big cap 4 (memory big 4 len) 0 q.buffer q.tail v.tail_in
                (omega (arith, v.large)),
            all,
          )
          (copy_in-put_ring big cap _ q.head t bytes len tb (omega arith) gap
            ∙ sym (
                put_ring-append cap q.buffer q.tail (memory big 4 len) (read bytes 0 len) v.tail_in
                  (omega (arith, l, v.large))
                ∙ rw l))

    pushed-Holds :
        len + 4 + length (frames big ps) + 8 ≤ cap
        → Holds big cap pushed (ps ++ read bytes 0 len ∷ [])
    pushed-Holds room =
        let n = length (frames big ps) in
        let p = read bytes 0 len in
        let lp : length p ≡ len = length-read bytes 0 len in
        let ws = memory big 4 len ++ p in
        let lw : length ws ≡ 4 + len =
          length-append (memory big 4 len) p ∙ omega (arith, length-memory big 4 len, lp) in
        let all : frames big (ps ++ p ∷ []) ≡ frames big ps ++ ws =
          frames-append big ps p ∙ ap (λ k. frames big ps ++ (memory big 4 k ++ p)) lp in
        let total : length (frames big (ps ++ p ∷ [])) ≡ n + (4 + len) =
          ap length all ∙ length-append (frames big ps) ws ∙ ap (λ k. n + k) lw in
        record {
          large = v.large;
          small = v.small;
          allocated = omega (arith, length-put_ring cap q.buffer q.tail ws, v.allocated);
          head_in = v.head_in;
          tail_in = ground (arith, mod_once (q.tail + (4 + len)) cap, v.tail_in);
          tail_at = rw total (
              ground (
                arith,
                v.tail_at,
                v.head_in,
                mod_once (q.head + n) cap,
                mod_once (q.tail + (4 + len)) cap,
                mod_once (q.head + (n + (4 + len))) cap,
              ));
          reserved = rw total (omega (arith, room));
          bytes =
              rw (total, all, ← lw, v.tail_at)
                (ring-put_ring cap q.buffer q.head n ws v.allocated v.head_in
                    (omega (arith, lw, room))
                  ∙ ap (λ bs. bs ++ ws) v.bytes);
          nonempty = AllNonempty-append ps p v.nonempty (omega (arith, lp));
        }

    -- Push of a packet that fits, with the four bytes of its length, in what the packets and the reserve
    -- of eight bytes leave of the capacity succeeds, and the queue then holds that packet behind those
    -- that it held.
    pub push_lem :
        len + 4 + length (frames big ps) + 8 ≤ cap
        → let (ret, q') = push big cap (some bytes) len q in
          (ret ≡ ok) × Holds big cap q' (ps ++ read bytes 0 len ∷ [])
    unfolding push set_tail
    push_lem room =
        let after_length =
          ap (λ (r : List ℕ × ℕ). r.1)
            (store_loop-put_ring big cap 4 (memory big 4 len) 0 q.buffer q.tail v.tail_in
              (omega (arith, v.large))) in
        let t = (q.tail + 4) % cap in
        let tb : t < cap = ground (arith, mod_once (q.tail + 4) cap, v.tail_in, v.large) in
        let moved : add32 t len % cap ≡ (q.tail + (4 + len)) % cap =
          moves_on cap q.tail len v.tail_in v.large v.small (omega (arith, room)) in
        let inside : (q.tail + (4 + len)) % cap < cap =
          ground (arith, mod_once (q.tail + (4 + len)) cap, v.tail_in) in
        let done : push big cap (some bytes) len q ≡ (ok, pushed) = ground (
          arith,
          free_info big cap q ps v,
          (sizes big cap q ps v).3,
          stored room,
          after_length,
          moved,
          inside,
          v.head_in,
          v.tail_in,
          v.small,
        ) in
        rw done (refl, pushed-Holds room)

    -- Push of a packet that does not fit changes nothing. A queue with no byte free is reported as full,
    -- any other as too small for the packet.
    pub push_refuses :
        cap < len + 4 + length (frames big ps) + 8
        → len + 4 < 2 ^ 32
        → push big cap (some bytes) len q
          ≡ (err (if leb cap (length (frames big ps) + 8) then full_queue else space_not_enough), q)
    unfolding push
    push_refuses room short =
        ground
          (arith, free_info big cap q ps v, (sizes big cap q ps v).3, v.head_in, v.tail_in, v.large)

    -- Push of a length within four of 2 ^ 32, whose uint32_t sum with the four bytes of the length wraps,
    -- into a queue of a CAPACITY below 2 ^ 31 - 2 with at least one byte free and at least as many as the
    -- wrapped sum, passes every check and comes to the copy of the packet, although the bytes to be
    -- copied reach past the CAPACITY bytes of the buffer: by the one memcpy where the place behind the
    -- length is before the head, and by the second of two where it is not.
    pub push_check_wraps :
        cap + 2 < 2 ^ 31
        → 2 ^ 32 ≤ len + 4
        → len < 2 ^ 32
        → length (frames big ps) + 8 < cap
        → len + 4 - 2 ^ 32 + length (frames big ps) + 8 ≤ cap
        → let (buf, t) = store_loop big cap 4 (memory big 4 len) 0 q.buffer q.tail in
          (push big cap (some bytes) len q
            ≡ set_tail big cap
                (add32 t len % cap)
                (record q { buffer = copy_in big cap buf q.head t bytes len }))
          × (t < q.head → cap < t + len)
          × (q.head ≤ t → (cap - t < len) × (cap < len - (cap - t)))
    unfolding push
    push_check_wraps moderate wraps word some_free room =
        let t = (store_loop big cap 4 (memory big 4 len) 0 q.buffer q.tail).1 in
        let after_length : t ≡ (q.tail + 4) % cap =
          ap (λ (r : List ℕ × ℕ). r.1)
            (store_loop-put_ring big cap 4 (memory big 4 len) 0 q.buffer q.tail v.tail_in
              (omega (arith, v.large))) in
        let b : t < cap =
          rw after_length (mod-lt (q.tail + 4) {m = cap} (omega (arith, v.large))) in
        (
          ground (
            arith,
            free_info big cap q ps v,
            (sizes big cap q ps v).3,
            v.head_in,
            v.tail_in,
            v.large,
          ),
          λ h. omega (arith, b),
          λ h. (omega (arith, b), omega (arith, b)),
        )
