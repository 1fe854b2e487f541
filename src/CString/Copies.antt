-- ===== src/CString/Copies.antt =====
-- common/common_string.h: each operation leaves a text in the array, cut at SIZE characters.
use lightframe.Common.{
  set_at, bool_cases, ℕ, suc, ◌+◌, ◌-◌, ◌^◌, ◌≤◌, ◌<◌, ◌≡◌, inl, inr, refl, sym, ap, ◌∙◌, List, ◌∷◌,
  ◌++◌, arith, length, take, drop, set, replicate, ltb, if◌then◌else◌, min, length-take,
  length-drop, length-replicate,
}
use lightframe.Codec.Strings.{NoNul, strlen_terminated}
use lightframe.CString.{CString, strncpy, zeros, from_chars, from_string, assign, set_string}
use lightframe.CString.Text.{Text, drop_cons, NoNul-take, take_all, drop-replicate, strncpy_lem}

module _ (size : ℕ) where
  -- n characters of a text copied into a cleared array.
  pub strncpy-zeros :
      (str junk : List ℕ) (n : ℕ)
      → NoNul str
      → n ≤ length str
      → n ≤ size
      → strncpy (zeros size) (str ++ 0 ∷ junk) n ≡ take n str ++ 0 ∷ replicate (size - n) 0
  strncpy-zeros str junk n h l r =
      let e : size + 1 ≡ n + suc (size - n) = omega arith in
      let wide : n ≤ length (zeros size) = omega (arith, length-replicate {A = ℕ} (size + 1) 0) in
      strncpy_lem (zeros size) str junk n h l wide
      ∙ ap (◌++◌ (take n str)) (ap (λ k. drop n (replicate k 0)) e ∙ drop-replicate n (size - n))

  cut-Text :
      (str rest chars : List ℕ) (n : ℕ)
      → NoNul str
      → n ≤ length str
      → n ≤ size
      → chars ≡ take n str ++ 0 ∷ rest
      → n + length rest ≡ size
      → Text size (record { curlen = n; chars = chars }) (take n str)
  cut-Text str rest chars n h l r e w =
      let m : length (take n str) ≡ n = omega (arith, length-take n str) in
      record {
        no_nul = NoNul-take n str h;
        counted = sym m;
        room = omega arith;
        junk = rest;
        held = e;
        whole = omega arith;
      }

  cleared-Text :
      (str junk : List ℕ) (n : ℕ)
      → NoNul str
      → n ≤ length str
      → n ≤ size
      → Text size
          (record { curlen = n; chars = strncpy (zeros size) (str ++ 0 ∷ junk) n })
          (take n str)
  cleared-Text str junk n h l r =
      cut-Text str (replicate (size - n) 0) _ n h l r (strncpy-zeros str junk n h l r)
        (omega (arith, length-replicate {A = ℕ} (size - n) 0))

  -- The shorter of SIZE and the length of a text is what is copied of it.
  take_cut : (str : List ℕ) (n : ℕ) → n ≡ min size (length str) → take n str ≡ take size str
  take_cut str n e = elim (bool_cases (ltb (length str) size)) [
    | inl l ↦ take_all n str (ground (arith, l)) ∙ sym (take_all size str (ground (arith, l)))
    | inr l ↦ ap (λ k. take k str) (ground (arith, l))
  ]

  -- SetString of a C string leaves its first SIZE characters, and all of them where there are fewer.
  pub set_string_lem :
      (str junk : List ℕ)
      → NoNul str
      → size < 2 ^ 16
      → Text size (set_string size (str ++ 0 ∷ junk)) (take size str)
  unfolding set_string
  set_string_lem str junk h b =
      let s = str ++ 0 ∷ junk in
      let n = min size (length str) in
      let e : set_string size s ≡ record { curlen = n; chars = strncpy (zeros size) s n } =
        ground (arith, strlen_terminated str junk h) in
      rw (e, ← take_cut str n refl) (cleared-Text str junk n h (omega arith) (omega arith))

  -- The copy constructor cuts nothing: both arrays have SIZE + 1 characters.
  pub from_string_lem :
      (ob : CString) (str : List ℕ) → Text size ob str → Text size (from_string size ob) str
  unfolding from_string
  from_string_lem ob str t =
      let n = length str in
      let chars = strncpy (zeros size) (str ++ 0 ∷ t.junk) n in
      let e : from_string size ob ≡ record { curlen = n; chars = chars } =
        ground (arith, t.counted, t.held, t.room) in
      let c = cleared-Text str t.junk n t.no_nul (omega arith) t.room in
      rw e (rw (take_all n str (omega arith)) at c)

  -- n characters of a text copied over an array with any contents, and a NUL put after them.
  ended-Text :
      (dst str junk : List ℕ) (n : ℕ)
      → NoNul str
      → n ≤ length str
      → n ≤ size
      → length dst ≡ size + 1
      → Text size
          (record { curlen = n; chars = set (strncpy dst (str ++ 0 ∷ junk) n) n 0 })
          (take n str)
  ended-Text dst str junk n h l r d =
      let m : n ≡ length (take n str) = omega (arith, length-take n str) in
      let copied =
        strncpy_lem dst str junk n h l (omega arith)
        ∙ ap (◌++◌ (take n str)) (drop_cons n dst (omega arith)) in
      cut-Text str (drop (suc n) dst) _ n h l r
        (ap (λ xs. set xs n 0) copied ∙ set_at (take n str) (drop (suc n) dst) n _ 0 m)
        (omega (arith, length-drop (suc n) dst))

  -- The constructor over an array with any contents leaves the first SIZE characters of its argument.
  pub from_chars_lem :
      (old str junk : List ℕ)
      → NoNul str
      → size < 2 ^ 16
      → length old ≡ size + 1
      → Text size (from_chars size old (str ++ 0 ∷ junk)) (take size str)
  unfolding from_chars
  from_chars_lem old str junk h b l =
      let text = str ++ 0 ∷ junk in
      let n = min size (length str) in
      let dst = if ltb (length str) size then zeros size else old in
      let d : length dst ≡ size + 1 = ground (arith, length-replicate {A = ℕ} (size + 1) 0) in
      let e : from_chars size old text
          ≡ record { curlen = n; chars = set (strncpy dst text n) n 0 } =
        ground (arith, strlen_terminated str junk h) in
      rw (e, ← take_cut str n refl) (ended-Text dst str junk n h (omega arith) (omega arith) d)

  -- operator= cuts nothing, and the array may hold anything before it.
  pub assign_lem :
      (ob s : CString) (str : List ℕ)
      → Text size ob str
      → length s.chars ≡ size + 1
      → Text size (assign size ob s) str
  unfolding assign
  assign_lem ob s str t l =
      let n = length str in
      let e : assign size ob s
          ≡ record { curlen = n; chars = set (strncpy s.chars (str ++ 0 ∷ t.junk) n) n 0 } =
        ground (arith, t.counted, t.held, t.room) in
      let c = ended-Text s.chars str t.junk n t.no_nul (omega arith) t.room l in
      rw e (rw (take_all n str (omega arith)) at c)
