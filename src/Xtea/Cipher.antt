-- ===== src/Xtea/Cipher.antt =====
-- common/common_crypt.cpp: CXTEA::Encrypt and CXTEA::Decrypt, xtea chained over a buffer. A plain text
-- is laid out as a byte whose low three bits are the number of pad bytes, the pad bytes, the text and
-- seven zeros, in blocks of eight bytes. The lengths are such that an int32_t does not overflow.
use Prim.Native.Nat.{bit_and, bit_or, bit_xor}
use lightframe.Common.{
  ◌^◌, ℕ, zero, suc, ◌+◌, ◌-◌, ◌%◌, Bool, true, false, ◌&&◌, ◌||◌, Option, none, some, List, [],
  ◌∷◌, ◌++◌, ltb, ◌==◌, if◌then◌else◌, get_or, replicate, read, write,
}
use lightframe.Codec.{memory, value}
use lightframe.Xtea.{xtea}

-- `a[i] ^= b[i]` for the bytes of a block
abbrev pub xor_block : List ℕ → List ℕ → List ℕ
xor_block [] ys = []
xor_block (x ∷ xs) [] = x ∷ xs
xor_block (x ∷ xs) (y ∷ ys) = bit_xor x y ∷ xor_block xs ys

-- 1 + nInBufferLength + ZERO_LENGTH, and what is missing to a whole number of blocks
unfoldable pub pad_length : ℕ → ℕ
pad_length n = let rest = (1 + n + 7) % 8 in if rest == 0 then 0 else 8 - rest

-- the check of the last seven bytes
abbrev pub all_zero : List ℕ → Bool
all_zero [] = true
all_zero (x ∷ xs) = if x == 0 then all_zero xs else false

-- the exclusive or after xtea
abbrev pub mixed : List ℕ → Option (List ℕ) → Option (List ℕ)
mixed p none = none
mixed p (some e) = some (xor_block e p)

-- `big` is the byte order of the machine, as which the casts to int32_t read the sixteen bytes of the
-- key and the blocks. `none` stands for a loop of xtea that does not end.
module _ (big : Bool) (key : List ℕ) where
  abbrev pub key_words : List ℕ
  key_words =
      value big (read key 0 4)
      ∷ value big (read key 4 4)
      ∷ value big (read key 8 4)
      ∷ value big (read key 12 4)
      ∷ []

  -- the two words as bytes
  abbrev pub laid : Option (ℕ × ℕ) → Option (List ℕ)
  laid none = none
  laid (some (y, z)) = some (memory big 4 y ++ memory big 4 z)

  -- xtea on the bytes of a block, with ENCRYPT_ROUNDS, or DECRYPT_ROUNDS if `back`
  unfoldable pub crypt : Bool → List ℕ → Option (List ℕ)
  crypt back b = laid (
      xtea key_words (if back then 2 ^ 32 - 32 else 32)
        (value big (read b 0 4), value big (read b 4 4)))

  -- A block that is encrypted, or decrypted, after `c` and `p`, the last block of the cipher text and of
  -- the plain text.
  unfoldable pub encrypt_block : List ℕ → List ℕ → List ℕ → Option (List ℕ)
  encrypt_block c p b = mixed p (crypt false (xor_block b c))

  unfoldable pub decrypt_block : List ℕ → List ℕ → List ℕ → Option (List ℕ)
  decrypt_block c p b = mixed c (crypt true (xor_block b p))

  -- the n bytes of the input, from `i` on; the last blocks; the output, from `o` on. Each round takes
  -- eight bytes, and the loop gives `none` where the fuel ends before it does.
  unfoldable pub encrypt_loop :
      ℕ
      → ℕ
      → List ℕ
      → ℕ
      → List ℕ × List ℕ
      → ℕ
      → List ℕ
      → Option (ℕ × (List ℕ × List ℕ) × ℕ × List ℕ)
  encrypt_loop zero n src i (c, p) o out = none
  encrypt_loop (suc fuel) n src i (c, p) o out =
      if ltb i (n - 1)
      then elim (encrypt_block c p (read src i 8)) [
        | none ↦ none
        | some e ↦ encrypt_loop fuel n src (i + 8) (e, read src i 8) (o + 8) (write out o e)
      ]
      else some (i, (c, p), o, out)

  unfoldable pub decrypt_loop :
      ℕ
      → ℕ
      → List ℕ
      → ℕ
      → List ℕ × List ℕ
      → ℕ
      → List ℕ
      → Option (ℕ × (List ℕ × List ℕ) × ℕ × List ℕ)
  decrypt_loop zero n src i (c, p) o out = none
  decrypt_loop (suc fuel) n src i (c, p) o out =
      if ltb i (n - 8)
      then elim (decrypt_block c p (read src i 8)) [
        | none ↦ none
        | some e ↦ decrypt_loop fuel n src (i + 8) (read src i 8, e) (o + 8) (write out o e)
      ]
      else some (i, (c, p), o, out)

  -- Encrypt: the value returned, and the output buffer of `room` bytes. `noise` are the bytes that rand()
  -- gives, of which that of the first is for the first byte.
  unfoldable pub encrypt :
      List ℕ → Option (List ℕ) → ℕ → Option (List ℕ) → ℕ → Option (ℕ × Option (List ℕ))
  encrypt noise src n dst room = elim src [
    | none ↦ some (0, dst)
    | some text ↦ if n == 0 then some (0, dst) else elim dst [
      | none ↦ some (0, none)
      | some old ↦
          let pad = pad_length n in
          let total = 1 + n + 7 + pad in
          if ltb room total
          then some (0, some old)
          else let head = bit_or (bit_and (get_or noise 0 0) 0xf8) pad in
            let first = head ∷ read noise 1 pad ++ read text 0 (7 - pad) in
            elim (crypt false first) [
              | none ↦ none
              | some e ↦
                  let out = write (write old 0 (replicate room 0)) 0 e in
                  elim (encrypt_loop n n text (7 - pad) (e, first) 8 out) [
                    | none ↦ none
                    | some done ↦
                        let (i, (c, p), o, out') = done in
                        elim (encrypt_block c p (get_or text i 0 ∷ replicate 7 0)) [
                          | none ↦ none
                          | some e' ↦ some (total, some (write out' o e'))
                        ]
                  ]
            ]
    ]
  ]

  -- Decrypt: the value returned, and the output buffer of `room` bytes.
  unfoldable pub decrypt : Option (List ℕ) → ℕ → Option (List ℕ) → ℕ → Option (ℕ × Option (List ℕ))
  decrypt src n dst room = elim src [
    | none ↦ some (0, dst)
    | some text ↦
        if n % 8 == 0 && ltb 8 n
        then elim (crypt true (read text 0 8)) [
          | none ↦ none
          | some first ↦
              let pad = bit_and (get_or first 0 0) 7 in
              let len = n - 1 - pad - 7 in
              elim dst [
                | none ↦ some (0, none)
                | some old ↦
                    if len == 0 || ltb room len
                    then some (0, some old)
                    else let out = write old 0 (read first (1 + pad) (7 - pad)) in
                      elim (decrypt_loop n n text 8 (read text 0 8, first) (7 - pad) out) [
                        | none ↦ none
                        | some done ↦
                            let (i, (c, p), o, out') = done in
                            elim (decrypt_block c p (read text i 8)) [
                              | none ↦ none
                              | some e ↦
                                  if all_zero (read e 1 7)
                                  then some (len, some (write out' o (get_or e 0 0 ∷ [])))
                                  else some (0, some out')
                            ]
                      ]
              ]
        ]
        else some (0, dst)
  ]
