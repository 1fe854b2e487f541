-- ===== src/Xtea/Chain.antt =====
-- common/common_crypt.cpp: the loops of CXTEA::Encrypt and CXTEA::Decrypt over a buffer.
use lightframe.Common.{
  ℕ, zero, suc, ◌+◌, ◌-◌, ◌*◌, ◌≤◌, ◌<◌, ◌≡◌, refl, sym, ap, ◌∙◌, Bool, true, false, Option, some,
  List, [], ◌∷◌, ◌++◌, arith, length, length-append, length-read, get_or, read, read-add,
  read_split, write, write-append, ltb,
}
use lightframe.Codec.Values.{Bytes}
use lightframe.Xtea.Cipher.{encrypt_block, decrypt_block, encrypt_loop, decrypt_loop}
use lightframe.Xtea.Blocks.{Block, encrypt_block_lem}

pub get_or-small : (xs : List ℕ) (i : ℕ) → Bytes xs → get_or xs i 0 < 256
get_or-small [] i h = omega arith
get_or-small (x ∷ xs) zero h = h.0
get_or-small (x ∷ xs) (suc i) h = get_or-small xs i h.1

pub read-Bytes : (xs : List ℕ) (i n : ℕ) → Bytes xs → Bytes (read xs i n)
unfolding read
read-Bytes xs i zero h = tt
read-Bytes xs i (suc n) h = (get_or-small xs i h, read-Bytes xs (i + 1) n h)

-- One round of each loop, and its end.
module _ (big : Bool) (key : List ℕ) (fuel n : ℕ) (src : List ℕ) (i : ℕ) (c p : List ℕ) (o : ℕ)
    (out : List ℕ) where
  encrypt_step :
      (e : List ℕ)
      → i + 1 < n
      → encrypt_block big key c p (read src i 8) ≡ some e
      → encrypt_loop big key (suc fuel) n src i (c, p) o out
        ≡ encrypt_loop big key fuel n src (i + 8) (e, read src i 8) (o + 8) (write out o e)
  unfolding encrypt_loop
  encrypt_step e l q = let t : ltb i (n - 1) ≡ true = ground arith in rw (t, q) refl

  encrypt_stop :
      n ≤ i + 1 → encrypt_loop big key (suc fuel) n src i (c, p) o out ≡ some (i, (c, p), o, out)
  unfolding encrypt_loop
  encrypt_stop l = let t : ltb i (n - 1) ≡ false = ground arith in rw t refl

  decrypt_step :
      (e : List ℕ)
      → i + 8 < n
      → decrypt_block big key c p (read src i 8) ≡ some e
      → decrypt_loop big key (suc fuel) n src i (c, p) o out
        ≡ decrypt_loop big key fuel n src (i + 8) (read src i 8, e) (o + 8) (write out o e)
  unfolding decrypt_loop
  decrypt_step e l q = let t : ltb i (n - 8) ≡ true = ground arith in rw (t, q) refl

  decrypt_stop :
      n ≤ i + 8 → decrypt_loop big key (suc fuel) n src i (c, p) o out ≡ some (i, (c, p), o, out)
  unfolding decrypt_loop
  decrypt_stop l = let t : ltb i (n - 8) ≡ false = ground arith in rw t refl

-- The n bytes of the plain text.
module _ (big : Bool) (key : List ℕ) (src : List ℕ) (n : ℕ) (h : Bytes src) where
  -- Decrypting cs after the blocks c and p gives the k blocks of the plain text from i on, and ends with
  -- the blocks c' and p'.
  abbrev pub Undone : ℕ → ℕ → List ℕ × List ℕ → List ℕ → List ℕ × List ℕ → Type 0
  Undone k i v cs w =
      (fuel m : ℕ) (text : List ℕ) (j o : ℕ) (out : List ℕ)
      → k < fuel
      → j + 8 * k + 8 ≡ m
      → read text j (8 * k) ≡ cs
      → decrypt_loop big key fuel m text j v o out
        ≡ some (j + 8 * k, w, o + 8 * k, write out o (read src i (8 * k)))

  abbrev pub Chained : ℕ → ℕ → ℕ → List ℕ × List ℕ → ℕ → List ℕ → Type 0
  Chained k fuel i v o out =
      (cs : List ℕ) × (w : List ℕ × List ℕ) × (encrypt_loop big key fuel n src i v o out
        ≡ some (i + 8 * k, w, o + 8 * k, write out o cs))
      × (length cs ≡ 8 * k)
      × (Block w.0 × Block w.1)
      × Undone k i v cs w

  ended :
      {w : List ℕ × List ℕ} (i o : ℕ) (out : List ℕ)
      → ◌≡◌ {A = Option (ℕ × (List ℕ × List ℕ) × ℕ × List ℕ)}
          (some (i, w, o, out))
          (some (i + 8 * 0, w, o + 8 * 0, write out o []))
  unfolding write
  ended i o out =
      let e : i + 8 * 0 ≡ i = omega arith in let f : o + 8 * 0 ≡ o = omega arith in rw (e, f) refl

  stops_here : (i : ℕ) (c p : List ℕ) → Undone 0 i (c, p) [] (c, p)
  unfolding read
  stops_here i c p zero m text j o out l e q = absurd (omega arith)
  stops_here i c p (suc fuel) m text j o out l e q =
      decrypt_stop big key fuel m text j c p o out (omega arith) ∙ ended j o out

  goes_on :
      (k i : ℕ) (c p e cs : List ℕ) (w : List ℕ × List ℕ)
      → length e ≡ 8
      → decrypt_block big key c p e ≡ some (read src i 8)
      → Undone k (i + 8) (e, read src i 8) cs w
      → Undone (suc k) i (c, p) (e ++ cs) w
  goes_on k i c p e cs w len d u zero m text j o out l a q = absurd (omega arith)
  goes_on k i c p e cs w len d u (suc fuel) m text j o out l a q =
      let b = read src i 8 in
      let whole : read text j (8 + 8 * k) ≡ e ++ cs = ap (read text j) (omega arith) ∙ q in
      let split = read_split text j 8 (8 * k) e cs (sym len) whole in
      let here = ap (decrypt_block big key c p) split.0 ∙ d in
      let rest =
        u fuel m text (j + 8) (o + 8) (write out o b) (omega arith) (omega arith) split.1 in
      let at_j : j + 8 + 8 * k ≡ j + 8 * suc k = omega arith in
      let at_o : o + 8 + 8 * k ≡ o + 8 * suc k = omega arith in
      let both : read src i (8 * suc k) ≡ b ++ read src (i + 8) (8 * k) =
        ap (read src i) (omega arith) ∙ read-add src i 8 (8 * k) in
      let laid : write (write out o b) (o + 8) (read src (i + 8) (8 * k))
          ≡ write out o (read src i (8 * suc k)) =
        ap (λ v. write (write out o b) (o + v) (read src (i + 8) (8 * k)))
          (sym (length-read src i 8))
        ∙ sym (write-append out o b (read src (i + 8) (8 * k)))
        ∙ ap (write out o) (sym both) in
      decrypt_step big key fuel m text j c p o out b (omega arith) here
      ∙ ap (λ v. decrypt_loop big key fuel m text (j + 8) (v, b) (o + 8) (write out o b)) split.0
      ∙ rest
      ∙ rw (at_j, at_o, laid) refl

  -- Where k blocks and one byte of the plain text are left, the loop of Encrypt encrypts those blocks, and
  -- the loop of Decrypt takes that back.
  pub encrypts :
      (k fuel i : ℕ) (c p : List ℕ) (o : ℕ) (out : List ℕ)
      → Block c
      → Block p
      → i + 8 * k + 1 ≡ n
      → k < fuel
      → Chained k fuel i (c, p) o out
  encrypts k zero i c p o out hc hp e l = absurd (omega arith)
  encrypts zero (suc fuel) i c p o out hc hp e l = (
    [],
    (c, p),
    encrypt_stop big key fuel n src i c p o out (omega arith) ∙ ended i o out,
    refl,
    (hc, hp),
    stops_here i c p,
  )
  encrypts (suc k) (suc fuel) i c p o out hc hp e l =
      let b = read src i 8 in
      let r = encrypt_block_lem big key c p b hc hp (length-read src i 8, read-Bytes src i 8 h) in
      let next =
        encrypts k fuel (i + 8) r.0 b (o + 8) (write out o r.0) r.3
          (length-read src i 8, read-Bytes src i 8 h) (omega arith) (omega arith) in
      let at_i : i + 8 + 8 * k ≡ i + 8 * suc k = omega arith in
      let at_o : o + 8 + 8 * k ≡ o + 8 * suc k = omega arith in
      let laid : write (write out o r.0) (o + 8) next.0 ≡ write out o (r.0 ++ next.0) =
        ap (λ u. write (write out o r.0) (o + u) next.0) (sym r.3.0)
        ∙ sym (write-append out o r.0 next.0) in
      (
        r.0 ++ next.0,
        next.1,
        encrypt_step big key fuel n src i c p o out r.0 (omega arith) r.1
            ∙ next.2
            ∙ rw (at_i, at_o, laid) refl,
        omega (arith, length-append r.0 next.0, next.3, r.3.0),
        next.4,
        goes_on k i c p r.0 next.0 next.1 r.3.0 r.2 next.5,
      )
