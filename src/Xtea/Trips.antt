-- ===== src/Xtea/Trips.antt =====
-- common/common_crypt.cpp: Decrypt takes back what Encrypt does.
use Prim.Native.Nat.{bit_and, bit_or}
use lightframe.Common.{
  ℕ, ◌+◌, ◌-◌, ◌*◌, ◌/◌, ◌%◌, ◌≤◌, ◌<◌, ◌≡◌, refl, sym, ap, ◌∙◌, Bool, true, false, some, List, [],
  ◌∷◌, ◌++◌, ◌&&◌, ◌||◌, ◌==◌, arith, length, replicate, length-append, length-read, length-write,
  get_or, read, read-add, read_split, read-write, write, write-append, ltb,
}
use lightframe.Codec.Values.{Bytes}
use lightframe.Pool.Links.{All-append}
use lightframe.Xtea.Bits.{head_byte}
use lightframe.Xtea.Cipher.{all_zero, pad_length, crypt, decrypt_block, encrypt, decrypt}
use lightframe.Xtea.Blocks.{Block, read_all, crypt_lem, encrypt_block_lem}
use lightframe.Xtea.Chain.{get_or-small, read-Bytes, Undone, encrypts}

-- The text, the pad bytes and eight bytes more make whole blocks.
pub pad_length_lem : (n : ℕ) → 0 < n → (pad_length n < 8) × (k : ℕ) × (n + pad_length n ≡ 8 * k + 8)
unfolding pad_length
pad_length_lem n p = (ground arith, (n + pad_length n) / 8 - 1, ground arith)

-- The first block of a plain text.
abbrev first_block : List ℕ → List ℕ → ℕ → List ℕ
first_block noise src pad =
    bit_or (bit_and (get_or noise 0 0) 0xf8) pad ∷ read noise 1 pad ++ read src 0 (7 - pad)

first_block-Block :
    (noise src : List ℕ) (pad : ℕ)
    → Bytes noise
    → Bytes src
    → pad < 8
    → Block (first_block noise src pad)
first_block-Block noise src pad h k l = (
  omega (
    arith,
    length-append (read noise 1 pad) (read src 0 (7 - pad)),
    length-read noise 1 pad,
    length-read src 0 (7 - pad),
  ),
  (
    (head_byte (get_or noise 0 0) pad (get_or-small noise 0 h) l).1,
    All-append _ (read noise 1 pad) (read src 0 (7 - pad)) (read-Bytes noise 1 pad h)
        (read-Bytes src 0 (7 - pad) k),
  ),
)

-- The last block: the last byte and seven zeros.
abbrev last_block : ℕ → List ℕ
last_block x = x ∷ replicate 7 0

three_writes :
    (buf xs ys zs : List ℕ) (i j k : ℕ)
    → j ≡ i + length xs
    → k ≡ j + length ys
    → write (write (write buf i xs) j ys) k zs ≡ write buf i (xs ++ (ys ++ zs))
three_writes buf xs ys zs i j k e f = sym (
    write-append buf i xs (ys ++ zs)
    ∙ ap (λ m. write (write buf i xs) m (ys ++ zs)) (sym e)
    ∙ write-append (write buf i xs) j ys zs
    ∙ ap (λ m. write (write (write buf i xs) j ys) m zs) (sym f))

last_ends : (x : ℕ) → all_zero (read (last_block x) 1 7) ≡ true
unfolding read
last_ends x = refl

-- The bytes of the text in the first block.
copied :
    (noise src : List ℕ) (pad : ℕ)
    → pad < 8
    → read (first_block noise src pad) (1 + pad) (7 - pad) ≡ read src 0 (7 - pad)
copied noise src pad l =
    let head = bit_or (bit_and (get_or noise 0 0) 0xf8) pad in
    let front = head ∷ read noise 1 pad in
    let rest = read src 0 (7 - pad) in
    let l1 = length-read noise 1 pad in
    let l2 = length-read src 0 (7 - pad) in
    let whole : read (front ++ rest) 0 ((1 + pad) + (7 - pad)) ≡ front ++ rest =
      read_all (front ++ rest) _ (omega (arith, length-append front rest, l1, l2)) in
    let from : 0 + (1 + pad) ≡ 1 + pad = omega arith in
    rw from at
      (read_split (front ++ rest) 0 (1 + pad) (7 - pad) front rest (omega (arith, l1)) whole).1

-- A text in three parts, of which the last is one byte.
text_parts :
    (src : List ℕ) (i j n : ℕ)
    → i + j + 1 ≡ n
    → read src 0 n ≡ read src 0 i ++ (read src i j ++ get_or src (n - 1) 0 ∷ [])
unfolding read
text_parts src i j n e =
    ap (read src 0) (omega arith)
    ∙ read-add src 0 i (j + 1)
    ∙ ap (λ m. read src 0 i ++ read src m (j + 1)) (omega arith)
    ∙ ap (◌++◌ (read src 0 i))
        (read-add src i j 1 ∙ ap (λ m. read src i j ++ get_or src m 0 ∷ []) (omega arith))

-- A text of n bytes that is encrypted into a buffer of `room` bytes, and the buffer of `room'` bytes that
-- it is decrypted into.
module _ (big : Bool) (key noise src old old' : List ℕ) (n room room' : ℕ) (bytes : Bytes src)
    (random : Bytes noise) (pos : 0 < n) (fits : 8 + n + pad_length n ≤ room)
    (whole : room ≤ length old) (fits' : n ≤ room') where
  abbrev total : ℕ
  total = 1 + n + 7 + pad_length n

  abbrev Sealed : List ℕ → Type 0
  Sealed out =
      (k : ℕ) × (e cs e' : List ℕ) × (w : List ℕ × List ℕ) × (n + pad_length n ≡ 8 * k + 8)
      × (length e ≡ 8)
      × (length cs ≡ 8 * k)
      × (length e' ≡ 8)
      × (out ≡ write (write old 0 (replicate room 0)) 0 (e ++ (cs ++ e')))
      × (crypt big key true e ≡ some (first_block noise src (pad_length n)))
      × Undone big key src n bytes k (7 - pad_length n) (e, first_block noise src (pad_length n)) cs
          w
      × (decrypt_block big key w.0 w.1 e' ≡ some (last_block (get_or src (n - 1) 0)))

  -- Encrypt returns the number of bytes of the cipher text, whose blocks can be decrypted one after
  -- another.
  encrypt_lem :
      (out : List ℕ) × (encrypt big key noise (some src) n (some old) room ≡ some (total, some out))
      × Sealed out
  unfolding encrypt
  encrypt_lem =
      let pad = pad_length n in
      let q = pad_length_lem n pos in
      let k = q.1 in
      let first = first_block noise src pad in
      let hf = first_block-Block noise src pad random bytes q.0 in
      let one = crypt_lem big key first hf in
      let out0 = write (write old 0 (replicate room 0)) 0 one.0 in
      let run =
        encrypts big key src n bytes k n (7 - pad) one.0 first 8 out0 one.3 hf (omega (arith, q.2))
          (omega (arith, q.2)) in
      let x = get_or src (7 - pad + 8 * k) 0 in
      let hx : Block (last_block x) =
        (refl, (get_or-small src (7 - pad + 8 * k) bytes, omega arith)) in
      let end = encrypt_block_lem big key run.1.0 run.1.1 (last_block x) run.4.0 run.4.1 hx in
      let z : (n == 0) ≡ false = ground arith in
      let t : ltb room (1 + n + 7 + pad) ≡ false = ground arith in
      (
        write (write out0 8 run.0) (8 + 8 * k) end.0,
        rw (z, t, one.1, run.2, end.1) refl,
        (
          k,
          one.0,
          run.0,
          end.0,
          run.1,
          q.2,
          one.3.0,
          run.3,
          end.3.0,
          three_writes (write old 0 (replicate room 0)) one.0 run.0 end.0 0 8 (8 + 8 * k)
              (omega (arith, one.3.0)) (omega (arith, run.3)),
          one.2,
          run.5,
          end.2 ∙ ap (λ i. some (last_block (get_or src i 0))) (omega (arith, q.2, q.0)),
        ),
      )

  -- Decrypt of the cipher text returns the number of bytes of the text, and puts the text into its
  -- buffer.
  decrypt_lem :
      (out : List ℕ)
      → Sealed out
      → decrypt big key (some out) total (some old') room'
        ≡ some (n, some (write old' 0 (read src 0 n)))
  unfolding decrypt
  decrypt_lem out s =
      let pad = pad_length n in
      let q = pad_length_lem n pos in
      let k = s.0 in
      let e = s.1 in
      let cs = s.2 in
      let e' = s.3 in
      let w = s.4 in
      let first = first_block noise src pad in
      let zeros = write old 0 (replicate room 0) in
      let len : 8 + (8 * k + 8) ≡ length (e ++ (cs ++ e')) =
        omega (arith, length-append e (cs ++ e'), length-append cs e', s.6, s.7, s.8) in
      let inside : 0 + (8 + (8 * k + 8)) ≤ length zeros =
        omega (arith, length-write old 0 (replicate room 0), s.5) in
      let text : read out 0 (8 + (8 * k + 8)) ≡ e ++ (cs ++ e') =
        ap (λ b. read b 0 (8 + (8 * k + 8))) s.9
        ∙ read-write zeros 0 (e ++ (cs ++ e')) _ len inside in
      let a = read_split out 0 8 (8 * k + 8) e (cs ++ e') (sym s.6) text in
      let b = read_split out 8 (8 * k) 8 cs e' (sym s.7) a.1 in
      let out0 = write old' 0 (read src 0 (7 - pad)) in
      let loop =
        s.11 total total out 8 (7 - pad) out0 (omega (arith, s.5)) (omega (arith, s.5)) b.0 in
      let z : (total % 8 == 0 && ltb 8 total) ≡ true = ground (arith, s.5) in
      let hb = (head_byte (get_or noise 0 0) pad (get_or-small noise 0 random) q.0).0 in
      let m : total - 1 - pad - 7 ≡ n = omega arith in
      let t : (n == 0 || ltb room' n) ≡ false = ground arith in
      let split = text_parts src (7 - pad) (8 * k) n (omega (arith, s.5, q.0)) in
      let joined =
        three_writes old' (read src 0 (7 - pad)) (read src (7 - pad) (8 * k))
          (get_or src (n - 1) 0 ∷ []) 0 (7 - pad) (7 - pad + 8 * k)
          (omega (arith, length-read src 0 (7 - pad)))
          (omega (arith, length-read src (7 - pad) (8 * k))) in
      rw
        (
          z,
          a.0,
          s.10,
          hb,
          m,
          t,
          copied noise src pad q.0,
          a.0,
          loop,
          b.1,
          s.12,
          last_ends (get_or src (n - 1) 0),
          hb,
          m,
        )
        (ap (λ v. some (n, some v)) (joined ∙ ap (write old' 0) (sym split)))

  -- A text of at least one byte that CXTEA encrypts into a buffer with room for it and its padding,
  -- whatever bytes rand() gives, and decrypts from there with the same key into a buffer with room for
  -- the text, comes back: both calls return, Encrypt the number of bytes of the cipher text, and Decrypt
  -- that of the text, with the text in its buffer.
  pub decrypt-encrypt :
      (out : List ℕ) × (encrypt big key noise (some src) n (some old) room ≡ some (total, some out))
      × (decrypt big key (some out) total (some old') room'
          ≡ some (n, some (write old' 0 (read src 0 n))))
  decrypt-encrypt = let r = encrypt_lem in (r.0, r.1, decrypt_lem r.0 r.2)
