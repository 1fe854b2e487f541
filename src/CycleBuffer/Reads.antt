-- ===== src/CycleBuffer/Reads.antt =====
-- common/common_cyclebuffer.h: Read at the head, and PeekRead.
use native.Mathlib.Decide.{dec_lt}
use native.Mathlib.Nat.{mod-add-mod, mod-eq-sub-mod}
use lightframe.Common.{
  ◌≢◌, Bool, true, false, ℕ, ◌+◌, ◌-◌, ◌%◌, ◌≤◌, ◌<◌, ◌≡◌, refl, sym, ap, ◌∙◌, some, List, [], ◌∷◌,
  ◌++◌, arith, length, min, read, write, read_none, write_none, length-append, ltb, if◌then◌else◌,
}
use lightframe.Ring.{ring, ring-read, ring_split}
use lightframe.Ring.Blocks.{ring-two}
use lightframe.CycleBuffer.{Cycle, copy_wrapped, read_head, peek_read}
use lightframe.CycleBuffer.Holds.{Holds, places, add_rest}

-- The index that Read leaves is the place n steps round the ring.
next_place :
    (size index n : ℕ) (straight : Bool)
    → index ≤ size
    → (if straight
          then index + n
          else if ltb (size - index) n
          then n - (size - index)
          else index + n)
        % size
      ≡ (index % size + n) % size
next_place size index n true h = sym (mod-add-mod index size n)
next_place size index n false h = elim (dec_lt (size - index) n) [
  | yes p ↦
      let back : n - (size - index) ≡ index + n - size = omega arith in
      let q : size ≤ index + n = omega arith in
      ground (arith, mod-add-mod index size n, mod-eq-sub-mod q, back)
  | no p ↦ ground (arith, mod-add-mod index size n)
]

empty_of_length : (xs : List ℕ) → length xs ≡ 0 → xs ≡ []
empty_of_length [] e = refl
empty_of_length (x ∷ xs) e = absurd (omega arith)

module _ (size : ℕ) (c : Cycle) (xs ys : List ℕ) (v : Holds size c (xs ++ ys)) where
  pub open_parts :
      (c.data_size ≡ length xs + length ys)
      × (ring size c.arr_buf (c.read_index % size) (length xs) ≡ xs)
      × (ring size c.arr_buf ((c.read_index % size + length xs) % size) (length ys) ≡ ys)
  open_parts =
      let counted : c.data_size ≡ length xs + length ys = v.counted ∙ length-append xs ys in
      let split =
        ring_split size c.arr_buf (c.read_index % size) (length xs) (length ys) xs ys
          (places size c (xs ++ ys) v).3 (omega (arith, counted, v.bounded)) refl
          (rw counted at v.bytes) in
      (counted, split.0, split.1)

  -- the buffer without its first bytes
  abbrev rest : Cycle
  rest = record c {
    read_index =
        if ltb c.read_index c.write_index
        then c.read_index + length xs
        else if ltb (size - c.read_index) (length xs)
        then length xs - (size - c.read_index)
        else c.read_index + length xs;
    data_size = c.data_size - length xs;
  }

  rest-Holds : 0 < length xs → Holds size rest ys
  rest-Holds pos =
      let r = c.read_index % size in
      let p = places size c (xs ++ ys) v in
      let o = open_parts in
      let i : rest.read_index ≤ size =
        ground (arith, v.read_in, v.write_in, v.placed, o.0, v.bounded) in
      let e : rest.read_index % size ≡ (r + length xs) % size =
        next_place size c.read_index (length xs) _ v.read_in in
      let d : c.data_size - length xs ≡ length ys = omega (arith, o.0) in
      record {
        positive = v.positive;
        allocated = v.allocated;
        read_in = i;
        write_in = v.write_in;
        counted = d;
        bounded = omega (arith, v.bounded);
        placed = ground (arith, v.placed, o.0, v.read_in, v.write_in, v.bounded);
        bytes = rw (e, d) o.2;
      }

  -- What either way of copying takes out is the first part of the content.
  taken :
      0 < length xs
      → (out : List ℕ)
      → (copy_wrapped size out (length xs) c ≡ write out 0 xs)
        × (c.read_index < c.write_index → read c.arr_buf c.read_index (length xs) ≡ xs)
  unfolding copy_wrapped
  taken pos out =
      let left = size - c.read_index in
      let n = length xs in
      let p = places size c (xs ++ ys) v in
      let o = open_parts in
      elim (dec_lt c.read_index size) [
        | yes inside ↦ ground (
          arith,
          p.0,
          o,
          v.placed,
          v.bounded,
          v.write_in,
          ring-read size c.arr_buf c.read_index n,
          ring-two size c.arr_buf c.read_index out left (n - left),
          add_rest left n,
        )
        | no at_end ↦ ground (
          arith,
          p.0,
          o,
          v.read_in,
          v.write_in,
          v.bounded,
          ring-read size c.arr_buf 0 n,
          read_none c.arr_buf c.read_index left,
          write_none out 0 (read c.arr_buf c.read_index left),
        )
      ]

  -- Read into a destination gives the first bytes of the content, as many as are wanted or all that
  -- there are, returns their number, and leaves the rest.
  pub read_head_lem :
      (out : List ℕ) (want : ℕ)
      → 0 < want
      → length xs ≡ min want (length (xs ++ ys))
      → let (n, dst, c') = read_head size (some out) want c in
        (n ≡ length xs) × (dst ≡ some (write out 0 xs)) × Holds size c' ys
  unfolding read_head
  read_head_lem out want pos e =
      let chosen : (if ltb c.data_size want then c.data_size else want) ≡ length xs =
        ground (arith, open_parts.0, length-append xs ys) in
      elim (dec_lt 0 (length xs)) [
        | yes some_bytes ↦
            let t = taken some_bytes out in
            let done : read_head size (some out) want c ≡ (length xs, some (write out 0 xs), rest) =
              ground (arith, chosen, t.0, t.1) in
            rw done (refl, refl, rest-Holds some_bytes)
        | no none_left ↦
            let z : length xs ≡ 0 = omega arith in
            let nil = empty_of_length xs z in
            let done : read_head size (some out) want c ≡ (0, some out, c) =
              ground (arith, chosen) in
            rw done (sym z, ap (λ bs. some bs) (sym (write_none out 0 xs nil)), rw nil at v)
      ]

  -- PeekRead gives what Read gives, and changes nothing, where the two indices differ.
  pub peek_read_lem :
      (out : List ℕ) (want : ℕ)
      → 0 < want
      → length xs ≡ min want (length (xs ++ ys))
      → c.read_index ≢ c.write_index
      → peek_read size (some out) want c ≡ (length xs, some (write out 0 xs))
  unfolding peek_read copy_wrapped
  peek_read_lem out want pos e apart =
      let chosen : (if ltb c.data_size want then c.data_size else want) ≡ length xs =
        ground (arith, open_parts.0, length-append xs ys) in
      elim (dec_lt 0 (length xs)) [
        | yes some_bytes ↦ ground (arith, chosen, taken some_bytes out)
        | no none_left ↦
            let nil = empty_of_length xs (omega arith) in
            let none_read = read_none c.arr_buf c.read_index (length xs) (omega arith) in
            ground (
              arith,
              chosen,
              none_read,
              write_none out 0 (read c.arr_buf c.read_index (length xs)) none_read,
              write_none out 0 xs nil,
            )
      ]

  -- Where the indices are equal PeekRead takes the buffer for empty. If it is full, PeekRead gives
  -- nothing, though Read gives the bytes that are wanted.
  pub peek_read_full :
      (out : List ℕ) (want : ℕ)
      → 0 < want
      → length xs ≡ min want (length (xs ++ ys))
      → c.read_index ≡ c.write_index
      → c.data_size ≡ size
      → (peek_read size (some out) want c ≡ (0, some out))
        × ((read_head size (some out) want c).0 ≡ length xs)
        × (0 < length xs)
  unfolding peek_read
  peek_read_full out want pos e same full = (
    ground arith,
    (read_head_lem out want pos e).0,
    omega (arith, open_parts.0, length-append xs ys, v.positive),
  )
