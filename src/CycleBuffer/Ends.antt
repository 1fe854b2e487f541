-- ===== src/CycleBuffer/Ends.antt =====
-- common/common_cyclebuffer.h: the other two ends, WriteToHead and ReadFromTail.
use lightframe.Common.{
  ℕ, ◌+◌, ◌-◌, ◌%◌, ◌≤◌, ◌<◌, ◌≡◌, ◌≢◌, ◌⊎◌, refl, sym, ap, ◌∙◌, some, List, ◌++◌, arith, length,
  min, read, write, read_none, write_none, length-read, length-write, length-append, read-write,
  read-write_before, read-write_after, ltb, leb, if◌then◌else◌,
}
use lightframe.Ring.{mod_once, ring, ring-read, ring-add}
use lightframe.Ring.Blocks.{ring-two, ring-write_apart}
use lightframe.CycleBuffer.{Cycle, count, write_to_head, read_head, read_from_tail}
use lightframe.CycleBuffer.Holds.{Holds, places}
use lightframe.CycleBuffer.Reads.{open_parts}

-- An old byte lies outside the n places before the read index.
outside_front :
    (size index n held i : ℕ)
    → index ≤ size
    → 0 < size
    → n ≤ index
    → held + n ≤ size
    → i < held
    → ((index % size + i) % size < index - n) ⊎ (index - n + n ≤ (index % size + i) % size)
outside_front size index n held i a b c d e =
    let m = mod_once index size (omega arith) in
    let r : index % size < size = ground (arith, m) in
    ground (arith, m, mod_once (index % size + i) size)

module _ (size : ℕ) (c : Cycle) (content : List ℕ) (v : Holds size c content) (bytes : List ℕ)
    (n : ℕ) where
  -- the buffer with n bytes put directly before its content
  abbrev fronted : Cycle
  fronted = record c {
    arr_buf = write c.arr_buf (c.read_index - n) (read bytes 0 n);
    read_index = c.read_index - n;
    data_size = c.data_size + n;
  }

  fronted-Holds :
      0 < n
      → n ≤ c.read_index
      → length content + n ≤ size
      → Holds size fronted (read bytes 0 n ++ content)
  fronted-Holds pos fits room =
      let ws = read bytes 0 n in
      let l = length-read bytes 0 n in
      let front = c.read_index - n in
      let p = places size c content v in
      let at : front % size ≡ front =
        ground (arith, mod_once front size, v.read_in, v.positive, pos, fits) in
      let back : (front + n) % size ≡ c.read_index % size =
        ap (λ k. k % size) {x = front + n} {y = c.read_index} (omega arith) in
      let e : c.data_size + n ≡ n + c.data_size = omega arith in
      let buf' = fronted.arr_buf in
      let first : ring size buf' front n ≡ ws =
        ring-read size buf' front n (omega (arith, v.read_in))
        ∙ read-write c.arr_buf front ws n (sym l) (omega (arith, v.read_in, v.allocated)) in
      let others : ring size buf' (c.read_index % size) c.data_size ≡ content =
        ring-write_apart size c.arr_buf front ws (c.read_index % size) c.data_size p.3 v.bounded
          (λ i h. rw l (
            outside_front size c.read_index n c.data_size i v.read_in v.positive fits
              (omega (arith, v.counted, room)) h))
        ∙ v.bytes in
      record {
        positive = v.positive;
        allocated = omega (arith, length-write c.arr_buf front ws, v.allocated);
        read_in = omega (arith, v.read_in);
        write_in = v.write_in;
        counted = omega (arith, length-append ws content, l, v.counted);
        bounded = omega (arith, v.counted, room);
        placed = ground (arith, v.placed);
        bytes =
            rw (at, e)
              (ring-add size buf' front n c.data_size (omega (arith, v.read_in))
                  (omega (arith, room))
                ∙ rw (back, first, others));
      }

  -- WriteToHead of n bytes that fit puts them before the content and returns their number, where they
  -- do not pass the start of the array and the indices differ.
  pub write_to_head_lem :
      0 < n
      → length content + n ≤ size
      → c.read_index ≢ c.write_index
      → n ≤ c.read_index
      → let (ret, c') = write_to_head size (some bytes) n c in
        (ret ≡ count n) × Holds size c' (read bytes 0 n ++ content)
  unfolding write_to_head
  write_to_head_lem pos room apart fits =
      let done : write_to_head size (some bytes) n c ≡ (count n, fronted) =
        ground (arith, v.counted) in
      rw done (refl, fronted-Holds pos fits room)

module _ (size : ℕ) (c : Cycle) (xs ys : List ℕ) (v : Holds size c (xs ++ ys)) where
  -- WriteToHead of more bytes than lie before the read index, into a buffer whose data does not pass
  -- the end, reports success and stores the read index's new value in the write index: the read index
  -- stays, and a Read gives the first of the old bytes instead of the new ones.
  pub write_to_head_misplaces :
      (bytes out : List ℕ) (n : ℕ)
      → 0 < length xs
      → length (xs ++ ys) + n ≤ size
      → c.read_index < c.write_index
      → c.read_index < n
      → let (ret, c') = write_to_head size (some bytes) n c in
        (ret ≡ count n)
        × (c'.read_index ≡ c.read_index)
        × (c'.write_index ≡ size + c.read_index - n)
        × ((read_head size (some out) (length xs) c').1 ≡ some (write out 0 xs))
  unfolding write_to_head read_head
  write_to_head_misplaces bytes out n pos room apart long =
      let r = c.read_index in
      let o = open_parts size c xs ys v in
      let p = places size c (xs ++ ys) v in
      let tail = size - (n - r) in
      let b1 = write c.arr_buf tail (read bytes 0 (n - r)) in
      let l2 = length-read bytes (n - r) r in
      let old : read c.arr_buf r (length xs) ≡ xs =
        ground (arith, p.0, o, v.write_in, v.placed, ring-read size c.arr_buf r (length xs)) in
      let kept : read (write b1 0 (read bytes (n - r) r)) r (length xs) ≡ xs =
        read-write_after b1 0 (read bytes (n - r) r) r (length xs) (omega (arith, l2))
        ∙ read-write_before c.arr_buf tail (read bytes 0 (n - r)) r (length xs)
            (ground (arith, o.0, v.placed, v.counted))
        ∙ old in
      let total : c.data_size + n ≤ size = omega (arith, v.counted, room) in
      ground (arith, total, kept, v.placed, o.0, v.write_in)

  -- the buffer without its last bytes
  abbrev pub cut : ℕ → Cycle
  cut want = record c {
    write_index =
        if ltb c.read_index c.write_index
        then c.write_index - length ys
        else if leb want c.write_index
        then c.write_index - length ys
        else size - (length ys - c.write_index);
    data_size = c.data_size - length ys;
  }

  cut-Holds :
      (want : ℕ)
      → length ys ≡ min want (length (xs ++ ys))
      → c.read_index ≢ c.write_index
      → Holds size (cut want) xs
  cut-Holds want e apart =
      let l = length-append xs ys in
      let o = open_parts size c xs ys v in
      let d : c.data_size - length ys ≡ length xs = omega (arith, o.0) in
      record {
        positive = v.positive;
        allocated = v.allocated;
        read_in = v.read_in;
        write_in = ground (arith, v.write_in);
        counted = d;
        bounded = omega (arith, v.bounded);
        placed = ground (arith, l, v.placed, o.0, v.read_in, v.write_in, v.bounded);
        bytes = rw d o.1;
      }

  -- What ReadFromTail copies out, in each of its two ways, is the last part of the content.
  last_part :
      (out : List ℕ)
      → c.read_index ≢ c.write_index
      → 0 < length ys
      → let n = length ys in
        let w = c.write_index in
        (n ≤ w → read c.arr_buf (w - n) n ≡ ys)
        × (w < n
            → write
                (write out 0 (read c.arr_buf (size - (n - w)) (n - w)))
                (n - w)
                (read c.arr_buf 0 w)
              ≡ write out 0 ys)
  last_part out apart some_bytes =
      let n = length ys in
      let w = c.write_index in
      let p = places size c (xs ++ ys) v in
      let o = open_parts size c xs ys v in
      let at =
        mod_once (c.read_index % size + length xs) size (omega (arith, p.3, o.0, v.bounded)) in
      let low : n ≤ w → (c.read_index % size + length xs) % size ≡ w - n =
        λ h. ground (arith, at, p.0, o.0, v.placed, v.read_in, v.write_in, v.bounded, apart) in
      let high : w < n → (c.read_index % size + length xs) % size ≡ size - (n - w) =
        λ h. ground (arith, at, p.0, o.0, v.placed, v.read_in, v.write_in, v.bounded, apart) in
      let sum : w < n → n - w + w ≡ n = λ h. omega arith in
      (
        λ h.
            sym (ring-read size c.arr_buf (w - n) n (omega (arith, v.write_in)))
            ∙ rw (low h) at o.2,
        λ h.
            ring-two size c.arr_buf (size - (n - w)) out (n - w) w
              (omega (arith, o.0, v.bounded, v.positive)) (omega (arith, o.0, v.bounded)) v.write_in
            ∙ rw (sum h) (ap (write out 0) (rw (high h) at o.2)),
      )

  -- ReadFromTail gives the last bytes of the content, as many as are wanted or all that there are, in
  -- their order, and leaves those before them, where the two indices differ.
  pub read_from_tail_lem :
      (out : List ℕ) (want : ℕ)
      → 0 < want
      → 0 < length (xs ++ ys)
      → length ys ≡ min want (length (xs ++ ys))
      → c.read_index ≢ c.write_index
      → (read_from_tail size (some out) want c ≡ (length ys, some (write out 0 ys), cut want))
        × Holds size (cut want) xs
  unfolding read_from_tail
  read_from_tail_lem out want pos filled e apart =
      let o = open_parts size c xs ys v in
      let l = length-append xs ys in
      let chosen : (if ltb c.data_size want then c.data_size else want) ≡ length ys =
        ground (arith, o.0, l) in
      let some_bytes : 0 < length ys = omega (arith, l) in
      let last = last_part out apart some_bytes in
      let n = length ys in
      let w = c.write_index in
      let none_high : w ≡ n
          → write (write out 0 (read c.arr_buf (size - (n - w)) (n - w))) (n - w)
              (read c.arr_buf 0 w)
            ≡ write out 0 ys =
        λ h.
          let z : n - w ≡ 0 = omega arith in
          let nil = read_none c.arr_buf (size - (n - w)) (n - w) z in
          let start : w - n ≡ 0 = omega arith in
          rw (write_none out 0 _ nil, z, h)
            (ap (write out 0) (rw start at (last.0 (omega arith)))) in
      (
        ground (arith, chosen, o.0, last, v.placed, v.read_in, v.write_in, v.bounded, none_high),
        cut-Holds want e apart,
      )
