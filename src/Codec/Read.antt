-- ===== src/Codec/Read.antt =====
-- common/common_codeengine.cpp: what DECODE reads, and the round trip of an integer.
use lightframe.Common.{
  ℕ, zero, suc, ◌+◌, ◌-◌, ◌%◌, ◌^◌, ◌≤◌, ◌<◌, ◌≡◌, refl, sym, ap, ◌∙◌, Bool, true, false,
  if◌then◌else◌, List, [], ◌∷◌, ◌==◌, Status, arith, length, get_or, set, length-set, get_or-set,
  get_or-set_ne, array_ext, length-read, get_or-read, write, read, ok, err, length-write,
  read-write, encode_buf_length, decode_buf_length,
}
use native.Mathlib.Decide.{ℕ_discrete}
use lightframe.Codec.{
  bump, memory, place, encode_word, decode_loop, decode_word, encode_bool, decode_bool, little,
  Stream,
}
use lightframe.Codec.Words.{
  Fits, stream, wire, from_wire, length-wire, from_wire-wire, arrange, length-arrange,
  memory-arrange, value-arrange, get_or-arrange, place-place, encode_word_lem,
}

module _ (big : Bool) (w : ℕ) (buf : List ℕ) where
  -- One round, where the offset does not wrap.
  loop_step :
      (n i : ℕ) (p : List ℕ) (offset : ℕ)
      → offset + 1 < 2 ^ 32
      → decode_loop big w buf (suc n) i p offset
        ≡ decode_loop big w buf n (i + 1) (set p (place big w i) (get_or buf offset 0)) (offset + 1)
  unfolding decode_loop bump
  loop_step n i p offset h =
      ap (decode_loop big w buf n (i + 1) (set p (place big w i) (get_or buf offset 0)))
        {x = (offset + 1) % 2 ^ 32} {y = offset + 1} (omega arith)

  loop_shape :
      (n i : ℕ) (p : List ℕ) (offset : ℕ)
      → offset + n < 2 ^ 32
      → (length (decode_loop big w buf n i p offset).0 ≡ length p)
        × ((decode_loop big w buf n i p offset).1 ≡ offset + n)
  unfolding decode_loop
  loop_shape zero i p offset h = omega arith
  loop_shape (suc n) i p offset h =
      let p' = set p (place big w i) (get_or buf offset 0) in
      rw (loop_step n i p offset (omega arith)) (
        omega (
          arith,
          loop_shape n (i + 1) p' (offset + 1) (omega arith),
          length-set p (place big w i) _,
        ))

  -- A place is written once: later rounds leave it alone.
  loop_keeps :
      (n i : ℕ) (p : List ℕ) (offset k : ℕ)
      → i + n ≤ w
      → k < i
      → get_or (decode_loop big w buf n i p offset).0 (place big w k) 0 ≡ get_or p (place big w k) 0
  unfolding decode_loop
  loop_keeps zero i p offset k b h = refl
  loop_keeps (suc n) i p offset k b h =
      loop_keeps n (i + 1) _ (bump offset) k (omega arith) (omega arith)
      ∙ get_or-set_ne p (place big w i) (place big w k) _ 0 (λ e. absurd (
          omega (
            arith,
            place-place big w i (omega arith),
            place-place big w k (omega arith),
            ap (place big w) e,
          )))

  loop_reads :
      (n i : ℕ) (p : List ℕ) (offset k : ℕ)
      → offset + n < 2 ^ 32
      → i + n ≤ w
      → w ≤ length p
      → i ≤ k
      → k < i + n
      → get_or (decode_loop big w buf n i p offset).0 (place big w k) 0
        ≡ get_or buf (offset + (k - i)) 0
  loop_reads zero i p offset k s b l h h' = absurd (omega arith)
  loop_reads (suc n) i p offset k s b l h h' =
      let step = loop_step n i p offset (omega arith) in
      let p' = set p (place big w i) (get_or buf offset 0) in
      elim (ℕ_discrete i k) [
        | yes q ↦
            let z : offset + (k - i) ≡ offset = omega arith in
            rw (step, z)
              (rw (← q) (
                loop_keeps n (i + 1) p' (offset + 1) i (omega arith) (omega arith)
                ∙ ground (
                  arith,
                  get_or-set p (place big w i) (place big w i) (get_or buf offset 0) 0,
                  place-place big w i,
                )))
        | no q ↦
            let z : offset + (k - i) ≡ offset + 1 + (k - (i + 1)) = omega arith in
            rw (step, z)
              (loop_reads n (i + 1) p' (offset + 1) k (omega arith) (omega arith)
                (omega (arith, length-set p (place big w i) (get_or buf offset 0))) (omega arith)
                (omega arith))
      ]

  loop_arranges :
      (p : List ℕ) (offset : ℕ)
      → offset + w < 2 ^ 32
      → length p ≡ w
      → (decode_loop big w buf w 0 p offset).0 ≡ arrange big (read buf offset w)
  loop_arranges p offset h l =
      let shape = loop_shape w 0 p offset h in
      let bytes = read buf offset w in
      let same = length-arrange big bytes in
      array_ext _ _ 0 (omega (arith, shape, same, length-read buf offset w)) λ j b.
        let q : j < w = omega (arith, shape) in
        let back = place-place big w j q in
        let k = place big w j in
        rw (← back.1) (
          loop_reads w 0 p offset k h (omega arith) (omega arith) (omega arith)
            (omega (arith, back.0))
          ∙ (let e : offset + (k - 0) ≡ offset + k = omega arith in
              rw e (
                sym (
                  get_or-arrange big bytes w k (length-read buf offset w) back.0
                  ∙ get_or-read buf offset w k back.0))))

-- Decode at an integer type of w bytes succeeds where they lie inside the buffer: it gives the number
-- that the next w bytes stand for, highest first, on either kind of machine, and moves the offset
-- past them.
pub decode_word_lem :
    (big : Bool) (w v : ℕ) (buf : List ℕ) (size offset : ℕ)
    → Fits buf size offset w
    → decode_word big w (v, stream buf size offset)
      ≡ (ok, (from_wire (read buf offset w), stream buf size (offset + w)))
unfolding decode_word
decode_word_lem big w v buf size offset f =
    let p = memory big w v in
    let l : length p ≡ w =
      rw (memory-arrange big w v) (length-arrange big (wire w v) ∙ length-wire w v) in
    ground (
      arith,
      loop_shape big w buf w 0 p offset,
      loop_arranges big w buf p offset,
      value-arrange big (read buf offset w),
      l,
    )

-- What one machine encodes another decodes, of the same or of the other byte order: an integer of w
-- bytes comes back whole, and both offsets end in the same place.
pub decode_word-encode_word :
    (big big' : Bool) (w v old : ℕ) (buf : List ℕ) (size offset : ℕ)
    → Fits buf size offset w
    → v < 256 ^ w
    → let (ret, s) = encode_word big w v (stream buf size offset) in
      (ret ≡ ok)
      × (decode_word big' w (old, record s { offset = offset })
          ≡ (ok, (v, stream (write buf offset (wire w v)) size (offset + w))))
decode_word-encode_word big big' w v old buf size offset f h =
    let buf' = write buf offset (wire w v) in
    let len = length-write buf offset (wire w v) in
    let f' : Fits buf' size offset w = record {
      nonempty = f.nonempty;
      room = f.room;
      allocated = omega (arith, len, f.allocated);
      small = f.small;
    } in
    rw (encode_word_lem big w v buf size offset f) (
      refl,
      rw (
        decode_word_lem big' w old buf' size offset f',
        read-write buf offset (wire w v) w (sym (length-wire w v)) (omega arith),
        from_wire-wire w v h,
      ),
    )

-- Where the bytes do not fit, encoding and decoding an integer return their length errors and change
-- nothing: not the buffer, the offset, nor the variable.
pub words_refuse :
    (big : Bool) (w v : ℕ) (buf : List ℕ) (size offset : ℕ)
    → 0 < size
    → size < offset + w
    → (encode_word big w v (stream buf size offset)
        ≡ (err encode_buf_length, stream buf size offset))
      × (decode_word big w (v, stream buf size offset)
          ≡ (err decode_buf_length, (v, stream buf size offset)))
unfolding encode_word decode_word
words_refuse big w v buf size offset h k = ground arith

-- What Decode(bool&) makes of the decoded byte.
abbrev as_flag : Bool → Status × (ℕ × Stream) → Status × (Bool × Stream)
as_flag old (ret, (v, s)) = elim ret [
  | ok ↦ (ok, (if v == 0 then false else true, s))
  | err e ↦ (err e, (old, s))
]

-- A flag that fits the buffer, encoded on a machine of either byte order, is decoded to the same flag
-- on a machine of either byte order: it takes one byte, 1 or 0.
pub decode_bool-encode_bool :
    (big big' b old : Bool) (buf : List ℕ) (size offset : ℕ)
    → Fits buf size offset 1
    → let (ret, s) = encode_bool big b (stream buf size offset) in
      (ret ≡ ok)
      × (decode_bool big' (old, record s { offset = offset })
          ≡ (ok, (b, stream (write buf offset ((if b then 1 else 0) ∷ [])) size (offset + 1))))
unfolding encode_bool decode_bool little
decode_bool-encode_bool big big' true old buf size offset f =
    let t = decode_word-encode_word big big' 1 1 0 buf size offset f (omega arith) in
    (t.0, ap (as_flag old) t.1)
decode_bool-encode_bool big big' false old buf size offset f =
    let t = decode_word-encode_word big big' 1 0 0 buf size offset f (omega arith) in
    (t.0, ap (as_flag old) t.1)
