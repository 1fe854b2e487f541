-- ===== src/LogQueue/Records.antt =====
-- common/common_logqueue.h: the records that Push lays out.
use lightframe.Common.{
  ℕ, zero, suc, ◌+◌, ◌≤◌, ◌≡◌, refl, sym, ap, ◌∙◌, Bool, Option, none, some, List, [], ◌∷◌, ◌++◌,
  append_assoc, arith, length, set, read, write, set-write, write-append, read-write,
  read-write_before, length-append,
}
use lightframe.Codec.{memory}
use lightframe.Codec.Strings.{NoNul, strlen_terminated}
use lightframe.CString.Text.{leading_lem, take_all}
use lightframe.CodeQueue.Holds.{length-memory}
use lightframe.LogQueue.{strcpy, put_rest}

pub strcpy_lem :
    (dst str junk : List ℕ) (off : ℕ)
    → NoNul str
    → strcpy dst off (str ++ 0 ∷ junk) ≡ write dst off (str ++ 0 ∷ [])
unfolding strcpy
strcpy_lem dst str junk off h =
    let len = strlen_terminated str junk h in
    rw (len, leading_lem (length str) str junk h, take_all (length str) str (omega arith)) refl

set-set : (xs : List ℕ) (i v w : ℕ) → set (set xs i v) i w ≡ set xs i w
set-set [] i v w = refl
set-set (x ∷ xs) zero v w = refl
set-set (x ∷ xs) (suc i) v w = ap (◌∷◌ x) (set-set xs i v w)

-- The type takes the place of the message's NUL.
pub put_kind :
    (old str junk : List ℕ) (kind : ℕ)
    → NoNul str
    → set (strcpy old 0 (str ++ 0 ∷ junk)) (length str) kind ≡ write old 0 (str ++ kind ∷ [])
put_kind old str junk kind h =
    let n = length str in
    let e : n ≡ 0 + n = omega arith in
    ap (λ xs. set xs n kind) (strcpy_lem old str junk 0 h ∙ sym (set-write old 0 n str 0 e))
    ∙ set-set (write old 0 str) n 0 kind
    ∙ set-write old 0 n str kind e

-- The date that a call gives, or that of today.
abbrev pub Dated : List ℕ → Option (List ℕ) → List ℕ → Type 0
Dated today none d = today ≡ d
Dated today (some s) d = (junk : List ℕ) × (s ≡ d ++ 0 ∷ junk) × NoNul d

-- The end of a record: the ids and the date.
abbrev pub ending : Bool → ℕ → ℕ → List ℕ → List ℕ
ending big id1 id2 d = memory big 4 id1 ++ (memory big 4 id2 ++ d)

pub length-ending :
    (big : Bool) (id1 id2 : ℕ) (d : List ℕ) → length (ending big id1 id2 d) ≡ 8 + length d
length-ending big id1 id2 d = omega (
  arith,
  length-append (memory big 4 id1) (memory big 4 id2 ++ d),
  length-append (memory big 4 id2) d,
  length-memory big 4 id1,
  length-memory big 4 id2,
)

write_on :
    (old xs ys : List ℕ) (n : ℕ)
    → n ≡ length xs
    → write (write old 0 xs) n ys ≡ write old 0 (xs ++ ys)
write_on old xs ys n e =
    rw (e, write-append old 0 xs ys) (ap (λ k. write (write old 0 xs) k ys) (omega arith))

-- The bytes that are pushed are those of the record, without the NUL behind the date.
pub read_record :
    (old rec : List ℕ)
    → length rec ≤ length old
    → read (write old 0 (rec ++ 0 ∷ [])) 0 (length rec) ≡ rec
read_record old rec h =
    let n = length rec in
    ap (λ buf. read buf 0 n) (write-append old 0 rec (0 ∷ []))
    ∙ read-write_before (write old 0 rec) (0 + n) (0 ∷ []) 0 n (omega arith)
    ∙ read-write old 0 rec n refl (omega arith)

module _ (big : Bool) (cap limit : ℕ) (old today : List ℕ) where
  dated :
      (info d : List ℕ) (off id1 id2 : ℕ) (date : Option (List ℕ))
      → Dated today date d
      → put_rest big cap limit old today info off id1 id2 date
        ≡ write
            (write (write info off (memory big 4 id1)) (off + 4) (memory big 4 id2))
            (off + 8)
            (d ++ 0 ∷ [])
  unfolding put_rest
  dated info d off id1 id2 none h = rw h refl
  dated info d off id1 id2 (some s) h = rw h.1 (strcpy_lem _ d h.0 (off + 8) h.2)

  -- What Push lays behind the first bytes of a record.
  pub put_rest_lem :
      (xs d : List ℕ) (id1 id2 : ℕ) (date : Option (List ℕ))
      → Dated today date d
      → put_rest big cap limit old today (write old 0 xs) (length xs) id1 id2 date
        ≡ write old 0 ((xs ++ ending big id1 id2 d) ++ 0 ∷ [])
  put_rest_lem xs d id1 id2 date h =
      let n = length xs in
      let m1 = memory big 4 id1 in
      let m2 = memory big 4 id2 in
      let e1 : n + 4 ≡ length (xs ++ m1) =
        omega (arith, length-append xs m1, length-memory big 4 id1) in
      let e2 : n + 8 ≡ length ((xs ++ m1) ++ m2) =
        omega (arith, e1, length-append (xs ++ m1) m2, length-memory big 4 id2) in
      dated (write old 0 xs) d n id1 id2 date h
      ∙ ap (λ buf. write (write buf (n + 4) m2) (n + 8) (d ++ 0 ∷ [])) (write_on old xs m1 n refl)
      ∙ ap (λ buf. write buf (n + 8) (d ++ 0 ∷ [])) (write_on old (xs ++ m1) m2 (n + 4) e1)
      ∙ write_on old ((xs ++ m1) ++ m2) (d ++ 0 ∷ []) (n + 8) e2
      ∙ ap (write old 0) (
          sym (append_assoc ((xs ++ m1) ++ m2) d (0 ∷ []))
          ∙ ap (λ ys. ys ++ 0 ∷ []) (append_assoc (xs ++ m1) m2 d ∙ append_assoc xs m1 (m2 ++ d)))
