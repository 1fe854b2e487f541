-- ===== src/CString/Text.antt =====
-- common/common_string.h: the C library's copies over an array that holds a text.
use lightframe.Common.{
  write_at, ℕ, zero, suc, ◌+◌, ◌-◌, ◌≤◌, ◌<◌, ◌≡◌, refl, sym, ap, ◌∙◌, List, [], ◌∷◌, ◌++◌,
  append-nil, append_assoc, arith, length, take, drop, get_or, replicate, length-append,
  length-take,
}
use lightframe.Codec.Strings.{NoNul, strlen_terminated}
use lightframe.CString.{CString, leading, strncpy, strncat, strcat}

-- The object holds the text str: it has no NUL, its length is that of the field and at most SIZE, and
-- in the array it is ended by a NUL.
pub record Text (size : ℕ) (s : CString) (str : List ℕ) : Type 0 where
  pub no_nul : NoNul str
  pub counted : s.curlen ≡ length str
  pub room : length str ≤ size
  pub junk : List ℕ
  pub held : s.chars ≡ str ++ 0 ∷ junk
  pub whole : length str + length junk ≡ size

pub NoNul-take : (n : ℕ) (str : List ℕ) → NoNul str → NoNul (take n str)
NoNul-take zero str h = tt
NoNul-take (suc n) [] h = tt
NoNul-take (suc n) (c ∷ cs) h = (h.0, NoNul-take n cs h.1)

pub NoNul-append : (xs ys : List ℕ) → NoNul xs → NoNul ys → NoNul (xs ++ ys)
NoNul-append [] ys h h' = h'
NoNul-append (x ∷ xs) ys h h' = (h.0, NoNul-append xs ys h.1 h')

pub take_all : (n : ℕ) (xs : List ℕ) → length xs ≤ n → take n xs ≡ xs
take_all zero [] h = refl
take_all zero (x ∷ xs) h = absurd (omega arith)
take_all (suc n) [] h = refl
take_all (suc n) (x ∷ xs) h = ap (◌∷◌ x) (take_all n xs (omega arith))

pub take-append_right :
    (n : ℕ) (xs ys : List ℕ) → length xs ≤ n → take n (xs ++ ys) ≡ xs ++ take (n - length xs) ys
take-append_right n [] ys h = let e : n - 0 ≡ n = omega arith in rw e
take-append_right zero (x ∷ xs) ys h = absurd (omega arith)
take-append_right (suc n) (x ∷ xs) ys h =
    let e : suc n - suc (length xs) ≡ n - length xs = omega arith in
    rw e (ap (◌∷◌ x) (take-append_right n xs ys (omega arith)))

pub drop-replicate : (n k : ℕ) → drop {A = ℕ} n (replicate (n + suc k) 0) ≡ 0 ∷ replicate k 0
drop-replicate zero k = let e : 0 + suc k ≡ suc k = omega arith in rw e
drop-replicate (suc n) k =
    let e : suc n + suc k ≡ suc (n + suc k) = omega arith in rw e (drop-replicate n k)

-- What strncpy reads of a text: its first n characters.
pub leading_lem : (n : ℕ) (str junk : List ℕ) → NoNul str → leading n (str ++ 0 ∷ junk) ≡ take n str
unfolding leading
leading_lem zero str junk h = refl
leading_lem (suc n) [] junk h = refl
leading_lem (suc n) (c ∷ cs) junk h = ground (arith, leading_lem n cs junk h.1)

pub drop_cons : (n : ℕ) (xs : List ℕ) → n < length xs → drop n xs ≡ get_or xs n 0 ∷ drop (suc n) xs
drop_cons n [] h = absurd (omega arith)
drop_cons zero (x ∷ xs) h = refl
drop_cons (suc n) (x ∷ xs) h = drop_cons n xs (omega arith)

pub strncpy_lem :
    (dst str junk : List ℕ) (n : ℕ)
    → NoNul str
    → n ≤ length str
    → n ≤ length dst
    → strncpy dst (str ++ 0 ∷ junk) n ≡ take n str ++ drop n dst
unfolding strncpy
strncpy_lem dst str junk n h l d =
    let m : length (take n str) ≡ n = omega (arith, length-take n str) in
    let z : n - n ≡ 0 = omega arith in
    rw (leading_lem n str junk h, m, z, append-nil (take n str))
      (write_at [] dst 0 (take n str) refl (omega arith) ∙ ap (λ k. take n str ++ drop k dst) m)

pub strncat_lem :
    (text rest src junk : List ℕ) (n : ℕ)
    → NoNul text
    → NoNul src
    → length (take n src) ≤ length rest
    → strncat (text ++ 0 ∷ rest) (src ++ 0 ∷ junk) n
      ≡ (text ++ take n src) ++ 0 ∷ drop (length (take n src)) rest
unfolding strncat
strncat_lem text rest src junk n h h' l =
    let added = take n src ++ 0 ∷ [] in
    let m : length added ≡ suc (length (take n src)) =
      omega (arith, length-append (take n src) (0 ∷ [])) in
    rw (leading_lem n src junk h', strlen_terminated text rest h)
      (write_at text (0 ∷ rest) (length text) added refl (omega arith)
        ∙ ap (λ k. text ++ (added ++ drop k (0 ∷ rest))) m
        ∙ ap (◌++◌ text) (append_assoc (take n src) (0 ∷ []) _)
        ∙ sym (append_assoc text (take n src) _))

pub strcat_lem :
    (text rest src junk : List ℕ)
    → NoNul text
    → NoNul src
    → length src ≤ length rest
    → strcat (text ++ 0 ∷ rest) (src ++ 0 ∷ junk) ≡ (text ++ src) ++ 0 ∷ drop (length src) rest
unfolding strcat
strcat_lem text rest src junk h h' l =
    let t = take_all (length src) src (omega arith) in
    rw (strlen_terminated src junk h') (
      strncat_lem text rest src junk (length src) h h' (omega (arith, length-take (length src) src))
      ∙ ap (λ k. (text ++ k) ++ 0 ∷ drop (length k) rest) t)
