-- ===== src/Common/Memory.antt =====
-- memcpy and byte loops: blocks of bytes written into, and read from, an array.
use Prim.Native.Nat.{ℕ, zero, suc, ◌+◌, ◌≤◌, ◌<◌}
use mathlib.Core.Path.{◌≡◌, refl, sym, ap, ap₂, ◌∙◌}
use mathlib.Core.List.{List, [], ◌∷◌, ◌++◌, append_assoc}
use native.Mathlib.Omega.{arith}
use lightframe.Common.Arrays.{
  length, get_or, set, array_ext, take, drop, take-append, drop-append, get_or-append_left,
  length-append, length-set, get_or-set_ne, get_or-set,
}

-- memcpy(buf + off, ws, |ws|)
unfoldable pub write : List ℕ → ℕ → List ℕ → List ℕ
write buf off [] = buf
write buf off (w ∷ ws) = write (set buf off w) (off + 1) ws

-- the n bytes from buf + off
unfoldable pub read : List ℕ → ℕ → ℕ → List ℕ
read buf off zero = []
read buf off (suc n) = get_or buf off 0 ∷ read buf (off + 1) n

pub length-write : (buf : List ℕ) (off : ℕ) (ws : List ℕ) → length (write buf off ws) ≡ length buf
unfolding write
length-write buf off [] = refl
length-write buf off (w ∷ ws) = length-write (set buf off w) (off + 1) ws ∙ length-set buf off w

pub length-read : (buf : List ℕ) (off n : ℕ) → length (read buf off n) ≡ n
unfolding read
length-read buf off zero = refl
length-read buf off (suc n) = ap suc (length-read buf (off + 1) n)

pub get_or-write_before :
    (buf : List ℕ) (off : ℕ) (ws : List ℕ) (j : ℕ)
    → j < off
    → get_or (write buf off ws) j 0 ≡ get_or buf j 0
unfolding write
get_or-write_before buf off [] j h = refl
get_or-write_before buf off (w ∷ ws) j h =
    get_or-write_before (set buf off w) (off + 1) ws j (omega arith)
    ∙ get_or-set_ne buf off j w 0 (omega arith)

pub get_or-write_after :
    (buf : List ℕ) (off : ℕ) (ws : List ℕ) (j : ℕ)
    → off + length ws ≤ j
    → get_or (write buf off ws) j 0 ≡ get_or buf j 0
unfolding write
get_or-write_after buf off [] j h = refl
get_or-write_after buf off (w ∷ ws) j h =
    get_or-write_after (set buf off w) (off + 1) ws j (omega arith)
    ∙ get_or-set_ne buf off j w 0 (omega arith)

pub read-write :
    (buf : List ℕ) (off : ℕ) (ws : List ℕ) (n : ℕ)
    → n ≡ length ws
    → off + n ≤ length buf
    → read (write buf off ws) off n ≡ ws
unfolding read write
read-write buf off [] zero e h = refl
read-write buf off [] (suc n) e h = absurd (omega arith)
read-write buf off (w ∷ ws) zero e h = absurd (omega arith)
read-write buf off (w ∷ ws) (suc n) e h =
    ap₂ ◌∷◌
      (get_or-write_before (set buf off w) (off + 1) ws off (omega arith)
        ∙ ground (arith, get_or-set buf off off w 0))
      (read-write (set buf off w) (off + 1) ws n (omega arith)
        (omega (arith, length-set buf off w)))

pub read-write_before :
    (buf : List ℕ) (off : ℕ) (ws : List ℕ) (start n : ℕ)
    → start + n ≤ off
    → read (write buf off ws) start n ≡ read buf start n
unfolding read
read-write_before buf off ws start zero h = refl
read-write_before buf off ws start (suc n) h =
    ap₂ ◌∷◌ (get_or-write_before buf off ws start (omega arith))
      (read-write_before buf off ws (start + 1) n (omega arith))

pub read-write_after :
    (buf : List ℕ) (off : ℕ) (ws : List ℕ) (start n : ℕ)
    → off + length ws ≤ start
    → read (write buf off ws) start n ≡ read buf start n
unfolding read
read-write_after buf off ws start zero h = refl
read-write_after buf off ws start (suc n) h =
    ap₂ ◌∷◌ (get_or-write_after buf off ws start h)
      (read-write_after buf off ws (start + 1) n (omega arith))

pub read-add :
    (buf : List ℕ) (off n m : ℕ) → read buf off (n + m) ≡ read buf off n ++ read buf (off + n) m
unfolding read
read-add buf off zero m =
    let e : zero + m ≡ m = omega arith in let f : off + zero ≡ off = omega arith in rw (e, f)
read-add buf off (suc n) m =
    let e : suc n + m ≡ suc (n + m) = omega arith in
    let f : off + suc n ≡ off + 1 + n = omega arith in
    rw (e, f) (ap (◌∷◌ (get_or buf off 0)) (read-add buf (off + 1) n m))

pub write-append :
    (buf : List ℕ) (off : ℕ) (xs ys : List ℕ)
    → write buf off (xs ++ ys) ≡ write (write buf off xs) (off + length xs) ys
unfolding write
write-append buf off [] ys = let e : off + 0 ≡ off = omega arith in rw e
write-append buf off (x ∷ xs) ys =
    let e : off + suc (length xs) ≡ off + 1 + length xs = omega arith in
    rw e (write-append (set buf off x) (off + 1) xs ys)

pub get_or-read :
    (buf : List ℕ) (off n i : ℕ) → i < n → get_or (read buf off n) i 0 ≡ get_or buf (off + i) 0
unfolding read
get_or-read buf off zero i h = absurd (omega arith)
get_or-read buf off (suc n) zero h = let e : off + zero ≡ off = omega arith in rw e
get_or-read buf off (suc n) (suc i) h =
    let e : off + suc i ≡ off + 1 + i = omega arith in
    rw e (get_or-read buf (off + 1) n i (omega arith))

pub read_prefix : (xs ys : List ℕ) (n : ℕ) → n ≡ length xs → read (xs ++ ys) 0 n ≡ xs
read_prefix xs ys n e = array_ext _ _ 0 (length-read (xs ++ ys) 0 n ∙ e) λ i h.
    let h' : i < n = omega (arith, length-read (xs ++ ys) 0 n) in
    get_or-read (xs ++ ys) 0 n i h'
    ∙ (let z : 0 + i ≡ i = omega arith in rw z (get_or-append_left xs ys i 0 (omega arith)))

pub set-write :
    (buf : List ℕ) (off j : ℕ) (ws : List ℕ) (v : ℕ)
    → j ≡ off + length ws
    → set (write buf off ws) j v ≡ write buf off (ws ++ v ∷ [])
unfolding write
set-write buf off j ws v e = rw (e, write-append buf off ws (v ∷ []))

-- A block read in two parts.
pub read_split :
    (buf : List ℕ) (off n m : ℕ) (xs ys : List ℕ)
    → n ≡ length xs
    → read buf off (n + m) ≡ xs ++ ys
    → (read buf off n ≡ xs) × (read buf (off + n) m ≡ ys)
read_split buf off n m xs ys e h =
    let l = length-read buf off n in
    let whole = sym (read-add buf off n m) ∙ h in
    (
      sym (take-append _ (read buf (off + n) m) n (sym l))
          ∙ ap (take n) whole
          ∙ take-append xs ys n e,
      sym (drop-append (read buf off n) _ n (sym l)) ∙ ap (drop n) whole ∙ drop-append xs ys n e,
    )

pub write_whole : (buf ws : List ℕ) → length buf ≡ length ws → write buf 0 ws ≡ ws
write_whole buf ws e = array_ext _ _ 0 (length-write buf 0 ws ∙ e) λ i h.
    let n = length ws in
    let h' : i < n = omega (arith, length-write buf 0 ws) in
    let z : 0 + i ≡ i = omega arith in
    (rw z at (sym (get_or-read (write buf 0 ws) 0 n i h')))
    ∙ ap (λ bytes. get_or bytes i 0) (read-write buf 0 ws n refl (omega arith))

pub set_out : (xs : List ℕ) (i v : ℕ) → length xs ≤ i → set xs i v ≡ xs
set_out [] i v h = refl
set_out (x ∷ xs) zero v h = absurd (omega arith)
set_out (x ∷ xs) (suc i) v h = ap (◌∷◌ x) (set_out xs i v (omega arith))

pub read_none : (buf : List ℕ) (off n : ℕ) → n ≡ 0 → read buf off n ≡ []
unfolding read
read_none buf off zero e = refl
read_none buf off (suc n) e = absurd (omega arith)

pub write_none : (buf : List ℕ) (off : ℕ) (ws : List ℕ) → ws ≡ [] → write buf off ws ≡ buf
unfolding write
write_none buf off ws e = rw e

pub set_at : (ys zs : List ℕ) (n z w : ℕ) → n ≡ length ys → set (ys ++ z ∷ zs) n w ≡ ys ++ w ∷ zs
set_at [] zs zero z w e = refl
set_at [] zs (suc n) z w e = absurd (omega arith)
set_at (y ∷ ys) zs zero z w e = absurd (omega arith)
set_at (y ∷ ys) zs (suc n) z w e = ap (◌∷◌ y) (set_at ys zs n z w (omega arith))

-- A block written after ys replaces what followed it.
pub write_at :
    (ys zs : List ℕ) (n : ℕ) (ws : List ℕ)
    → n ≡ length ys
    → length ws ≤ length zs
    → write (ys ++ zs) n ws ≡ ys ++ (ws ++ drop (length ws) zs)
unfolding write
write_at ys zs n [] e h = refl
write_at ys [] n (w ∷ ws) e h = absurd (omega arith)
write_at ys (z ∷ zs) n (w ∷ ws) e h =
    rw (set_at ys zs n z w e, ← append_assoc ys (w ∷ []) zs)
      (write_at (ys ++ w ∷ []) zs (n + 1) ws (omega (arith, length-append ys (w ∷ [])))
          (omega arith)
        ∙ append_assoc ys (w ∷ []) (ws ++ drop (length ws) zs))

-- A text with its NUL, written to the start of an array with room for both
pub write_text :
    (dst str : List ℕ)
    → length str < length dst
    → write dst 0 (str ++ 0 ∷ []) ≡ str ++ 0 ∷ drop (suc (length str)) dst
write_text dst str h =
    let k : length (str ++ 0 ∷ []) ≡ suc (length str) = omega (arith, length-append str (0 ∷ [])) in
    write_at [] dst 0 (str ++ 0 ∷ []) refl (omega (arith, k))
    ∙ append_assoc str (0 ∷ []) _
    ∙ ap (λ j. str ++ 0 ∷ drop j dst) k
