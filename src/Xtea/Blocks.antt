-- ===== src/Xtea/Blocks.antt =====
-- common/common_crypt.cpp: what is encrypted in one block is decrypted to what it was.
use lightframe.Common.{
  ◌-◌, ◌^◌, ℕ, suc, ◌+◌, ◌≡◌, refl, sym, ap, ap₂, ◌∙◌, Bool, true, false, some, List, [], ◌∷◌, ◌++◌,
  arith, length, length-append, length-read, read, read_split, read_prefix, read-add, append-nil,
}
use lightframe.Codec.{memory, value}
use lightframe.Codec.Bytes.{value-memory}
use lightframe.Codec.Values.{Bytes, value-small, memory-value, memory-Bytes}
use lightframe.CodeQueue.Holds.{length-memory}
use lightframe.Pool.Links.{All-append, All-split}
use lightframe.Xtea.{xtea, negate}
use lightframe.Xtea.Rounds.{xtea-xtea}
use lightframe.Xtea.Bits.{xor_bytes}
use lightframe.Xtea.Cipher.{xor_block, key_words, laid, mixed, crypt, encrypt_block, decrypt_block}

-- Eight bytes.
abbrev pub Block : List ℕ → Type 0
Block b = (length b ≡ 8) × Bytes b

xor_block-Bytes :
    (xs ys : List ℕ)
    → length xs ≡ length ys
    → Bytes xs
    → Bytes ys
    → (length (xor_block xs ys) ≡ length xs)
      × Bytes (xor_block xs ys)
      × (xor_block (xor_block xs ys) ys ≡ xs)
xor_block-Bytes [] ys e h k = (refl, tt, refl)
xor_block-Bytes (x ∷ xs) [] e h k = absurd (omega arith)
xor_block-Bytes (x ∷ xs) (y ∷ ys) e h k =
    let r = xor_block-Bytes xs ys (omega arith) h.1 k.1 in
    let b = xor_bytes x y h.0 k.0 in (ap suc r.0, (b.1, r.1), ap₂ ◌∷◌ b.0 r.2)

pub xor_block-Block : (xs ys : List ℕ) → Block xs → Block ys → Block (xor_block xs ys)
xor_block-Block xs ys h k =
    let r = xor_block-Bytes xs ys (h.0 ∙ sym k.0) h.1 k.1 in (r.0 ∙ h.0, r.1)

-- Exclusive or with the same block twice.
pub xor_block-xor_block :
    (xs ys : List ℕ) → Block xs → Block ys → xor_block (xor_block xs ys) ys ≡ xs
xor_block-xor_block xs ys h k = (xor_block-Bytes xs ys (h.0 ∙ sym k.0) h.1 k.1).2

pub read_all : (bs : List ℕ) (n : ℕ) → n ≡ length bs → read bs 0 n ≡ bs
read_all bs n e = ap (λ xs. read xs 0 n) (sym (append-nil bs)) ∙ read_prefix bs [] n e

-- A block is its two words.
halves :
    (b : List ℕ)
    → Block b
    → (b ≡ read b 0 4 ++ read b 4 4) × Bytes (read b 0 4) × Bytes (read b 4 4)
halves b h =
    let e : b ≡ read b 0 4 ++ read b 4 4 = sym (read_all b 8 (sym h.0)) ∙ read-add b 0 4 4 in
    let k : Bytes (read b 0 4 ++ read b 4 4) = rw e at h.1 in
    let parts = All-split _ (read b 0 4) (read b 4 4) k in (e, parts.0, parts.1)

module _ (big : Bool) (key : List ℕ) where
  -- What xtea makes of a block it makes a block again, and takes it back.
  pub crypt_lem :
      (b : List ℕ)
      → Block b
      → (c : List ℕ) × (crypt big key false b ≡ some c) × (crypt big key true c ≡ some b) × Block c
  unfolding crypt negate
  crypt_lem b h =
      let k = halves b h in
      let l1 = length-read b 0 4 in
      let l2 = length-read b 4 4 in
      let y = value big (read b 0 4) in
      let z = value big (read b 4 4) in
      let run =
        xtea-xtea (key_words big key) 32 (y, z)
          (value-small big (read b 0 4) l1 k.1, value-small big (read b 4 4) l2 k.2) (omega arith)
          (omega arith) in
      let m1 = memory big 4 run.0.0 in
      let m2 = memory big 4 run.0.1 in
      let n1 = length-memory big 4 run.0.0 in
      let n2 = length-memory big 4 run.0.1 in
      let c = m1 ++ m2 in
      let r1 : read c 0 4 ≡ m1 = read_prefix m1 m2 4 (sym n1) in
      let whole : read c 0 (4 + 4) ≡ m1 ++ m2 =
        read_all c 8 (omega (arith, n1, n2, length-append m1 m2)) in
      let r2 : read c 4 4 ≡ m2 = (read_split c 0 4 4 m1 m2 (sym n1) whole).1 in
      let v1 = value-memory big 4 run.0.0 run.3.0 in
      let v2 = value-memory big 4 run.0.1 run.3.1 in
      (
        c,
        ap (laid big key) run.1,
        ap (laid big key) (
              ap₂ (λ u v. xtea (key_words big key) (2 ^ 32 - 32) (u, v)) (ap (value big) r1 ∙ v1)
                (ap (value big) r2 ∙ v2)
              ∙ run.2)
            ∙ ap some (
                ap₂ ◌++◌ (memory-value big (read b 0 4) l1 k.1)
                  (memory-value big (read b 4 4) l2 k.2)
                ∙ sym k.0),
        (
          omega (arith, n1, n2, length-append m1 m2),
          All-append _ m1 m2 (memory-Bytes big 4 run.0.0) (memory-Bytes big 4 run.0.1),
        ),
      )

  -- A block that is encrypted in a chain is decrypted at its place in the chain.
  pub encrypt_block_lem :
      (c p b : List ℕ)
      → Block c
      → Block p
      → Block b
      → (e : List ℕ) × (encrypt_block big key c p b ≡ some e)
        × (decrypt_block big key c p e ≡ some b)
        × Block e
  unfolding encrypt_block decrypt_block
  encrypt_block_lem c p b hc hp hb =
      let run = crypt_lem (xor_block b c) (xor_block-Block b c hb hc) in
      (
        xor_block run.0 p,
        ap (mixed p) run.1,
        ap (λ u. mixed c (crypt big key true u)) (xor_block-xor_block run.0 p run.3 hp)
            ∙ ap (mixed c) run.2
            ∙ ap some (xor_block-xor_block b c hb hc),
        xor_block-Block run.0 p run.3 hp,
      )
