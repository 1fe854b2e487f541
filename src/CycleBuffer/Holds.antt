-- ===== src/CycleBuffer/Holds.antt =====
-- common/common_cyclebuffer.h: what a buffer holds; Write at the tail and Read at the head.
use native.Mathlib.Decide.{dec_lt}
use lightframe.Common.{
  ℕ, ◌+◌, ◌-◌, ◌%◌, ◌≤◌, ◌<◌, ◌≡◌, ◌⊎◌, inl, refl, ap, ◌∙◌, some, List, [], ◌++◌, arith, length,
  read, read_none, write_none, length-read, length-append, length-replicate, ltb, if◌then◌else◌,
}
use lightframe.Ring.{mod_once, ring, put_ring, put_ring-write, length-put_ring, ring-put_ring}
use lightframe.Ring.Blocks.{put_ring-two}
use lightframe.CycleBuffer.{Cycle, count, no_space, reset, store, write_tail}

-- The buffer is sound, and holds exactly the bytes `content`, the oldest first. The indices may both
-- stand at the end of the array as well as at its start; where they are equal, the buffer is empty or
-- full.
pub record Holds (size : ℕ) (c : Cycle) (content : List ℕ) : Type 0 where
  pub positive : 0 < size
  pub allocated : size ≤ length c.arr_buf
  pub read_in : c.read_index ≤ size
  pub write_in : c.write_index ≤ size
  pub counted : c.data_size ≡ length content
  pub bounded : c.data_size ≤ size
  pub placed :
      (c.read_index + c.data_size ≡ c.write_index)
      ⊎ (c.read_index + c.data_size ≡ c.write_index + size)
  pub bytes : ring size c.arr_buf (c.read_index % size) c.data_size ≡ content

-- A fresh buffer is empty.
reset-Holds : (size : ℕ) → 0 < size → Holds size (reset size) []
unfolding reset
reset-Holds size h = record {
  positive = h;
  allocated = omega (arith, length-replicate {A = ℕ} size 0);
  read_in = omega arith;
  write_in = omega arith;
  counted = refl;
  bounded = omega arith;
  placed = inl (omega arith);
  bytes = refl;
}

pub add_rest : (k len : ℕ) → k < len → k + (len - k) ≡ len
add_rest k len h = omega arith

module _ (size : ℕ) (c : Cycle) (content : List ℕ) (v : Holds size c content) where
  -- the read index, the write index and the place past the content, as places of the ring
  pub places :
      (c.read_index % size ≡ (if ltb c.read_index size then c.read_index else 0))
      × (c.write_index % size ≡ (if ltb c.write_index size then c.write_index else 0))
      × ((c.read_index % size + c.data_size) % size ≡ c.write_index % size)
      × (c.read_index % size < size)
      × (c.write_index % size < size)
  places =
      let r = mod_once c.read_index size (omega (arith, v.read_in, v.positive)) in
      let w = mod_once c.write_index size (omega (arith, v.write_in, v.positive)) in
      let rb : c.read_index % size < size = ground (arith, r, v.read_in, v.positive) in
      let wb : c.write_index % size < size = ground (arith, w, v.write_in, v.positive) in
      let rr : c.read_index % size ≡ (if ltb c.read_index size then c.read_index else 0) =
        ground (arith, r, v.read_in) in
      let ww : c.write_index % size ≡ (if ltb c.write_index size then c.write_index else 0) =
        ground (arith, w, v.write_in) in
      let e = mod_once (c.read_index % size + c.data_size) size (omega (arith, rb, v.bounded)) in
      (rr, ww, ground (arith, e, rr, ww, v.placed, v.read_in, v.write_in, v.bounded), rb, wb)

  module _ (bytes : List ℕ) (n : ℕ) (pos : 0 < n) (room : length content + n ≤ size) where
    -- The stores go round the ring from the place past the content.
    stored :
        (store size bytes n c).arr_buf
        ≡ put_ring size c.arr_buf (c.write_index % size) (read bytes 0 n)
    unfolding store
    stored =
        let left = size - c.write_index in
        let l = length-read bytes 0 n in
        elim (dec_lt c.write_index size) [
          | yes inside ↦ ground (
            arith,
            places.1,
            v.placed,
            v.counted,
            v.read_in,
            l,
            put_ring-write size c.arr_buf c.write_index (read bytes 0 n),
            put_ring-two size c.arr_buf c.write_index bytes left (n - left),
            add_rest left n,
          )
          | no at_end ↦ ground (
            arith,
            places.1,
            v.placed,
            v.counted,
            v.read_in,
            v.write_in,
            l,
            put_ring-write size c.arr_buf 0 (read bytes 0 n),
            read_none bytes 0 left,
            write_none c.arr_buf c.write_index (read bytes 0 left),
          )
        ]

    indices :
        let c' = store size bytes n c in
        (c'.read_index ≡ c.read_index)
        × (c'.data_size ≡ c.data_size + n)
        × (c'.write_index ≤ size)
        × ((c.read_index + (c.data_size + n) ≡ c'.write_index)
            ⊎ (c.read_index + (c.data_size + n) ≡ c'.write_index + size))
    unfolding store
    indices = ground (arith, v.placed, v.counted, v.read_in, v.write_in)

    store-Holds : Holds size (store size bytes n c) (content ++ read bytes 0 n)
    store-Holds =
        let ws = read bytes 0 n in
        let l = length-read bytes 0 n in
        let all = length-append content ws in
        let i = indices in
        record {
          positive = v.positive;
          allocated = rw stored (
              omega (arith, length-put_ring size c.arr_buf (c.write_index % size) ws, v.allocated));
          read_in = omega (arith, i.0, v.read_in);
          write_in = i.2;
          counted = omega (arith, i.1, all, l, v.counted);
          bounded = omega (arith, i.1, v.counted, room);
          placed = rw (i.0, i.1) i.3;
          bytes =
              rw (stored, i.0, i.1, ← places.2)
                ((rw l at (
                    ring-put_ring size c.arr_buf (c.read_index % size) c.data_size ws v.allocated
                      places.3 (omega (arith, l, v.counted, room))))
                  ∙ ap (λ bs. bs ++ ws) v.bytes);
        }

    -- Write of n bytes that fit appends them to the content and returns their number.
    pub write_tail_lem :
        let (ret, c') = write_tail size (some bytes) n c in
        (ret ≡ count n) × Holds size c' (content ++ read bytes 0 n)
    unfolding write_tail
    write_tail_lem =
        let stores : write_tail size (some bytes) n c ≡ (count n, store size bytes n c) =
          ground (arith, v.counted) in
        rw stores (refl, store-Holds)

-- Write of more bytes than there is space for returns -1 and changes nothing.
pub write_tail_full :
    (size : ℕ) (c : Cycle) (content bytes : List ℕ) (n : ℕ)
    → Holds size c content
    → 0 < n
    → size < length content + n
    → write_tail size (some bytes) n c ≡ (no_space, c)
unfolding write_tail
write_tail_full size c content bytes n v p h = ground (arith, v.counted)
