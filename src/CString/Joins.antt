-- ===== src/CString/Joins.antt =====
-- common/common_string.h: the concatenations leave a text in the array, cut at SIZE characters.
use lightframe.Common.{
  bool_cases, ℕ, ◌+◌, ◌-◌, ◌≤◌, ◌≡◌, inl, inr, ap, ◌∙◌, List, ◌∷◌, ◌++◌, arith, length, take, drop,
  replicate, leb, min, length-append, length-take, length-drop, length-replicate,
}
use lightframe.Codec.Strings.{NoNul, strlen_terminated}
use lightframe.CString.{CString, strncpy, zeros, plus, plus_chars}
use lightframe.CString.Text.{
  Text, NoNul-take, NoNul-append, take_all, take-append_right, strncat_lem, strcat_lem,
}
use lightframe.CString.Copies.{strncpy-zeros}

module _ (size : ℕ) where
  -- Two texts after one another, cut at SIZE.
  joined-Text :
      (s : CString) (str str' : List ℕ)
      → NoNul str
      → NoNul str'
      → length str ≤ size
      → (let more = take (size - length str) str' in
          s ≡ record {
            curlen = min size (length str' + length str);
            chars = (str ++ more) ++ 0 ∷ drop (length more) (replicate (size - length str) 0);
          })
      → Text size s (take size (str ++ str'))
  joined-Text s str str' h h' r e =
      let more = take (size - length str) str' in
      let room : List ℕ = replicate (size - length str) 0 in
      let m = length-take (size - length str) str' in
      let k = length-append str more in
      rw (take-append_right size str str' r) (record {
        no_nul = NoNul-append str more h (NoNul-take _ str' h');
        counted = ap (λ x. x.curlen) e ∙ omega arith;
        room = omega arith;
        junk = drop (length more) room;
        held = ap (λ x. x.chars) e;
        whole =
            omega (
              arith,
              length-drop (length more) room,
              length-replicate {A = ℕ} (size - length str) 0,
            );
      })

  copied_text :
      (str junk : List ℕ)
      → NoNul str
      → length str ≤ size
      → strncpy (zeros size) (str ++ 0 ∷ junk) (length str)
        ≡ str ++ 0 ∷ replicate (size - length str) 0
  copied_text str junk h r =
      strncpy-zeros size str junk (length str) h (omega arith) r
      ∙ ap (λ k. k ++ 0 ∷ replicate (size - length str) 0) (take_all (length str) str (omega arith))

  -- operator+ of an object and characters.
  pub plus_chars_lem :
      (s : CString) (str str' junk : List ℕ)
      → Text size s str
      → NoNul str'
      → Text size (plus_chars size s (str' ++ 0 ∷ junk)) (take size (str ++ str'))
  unfolding plus_chars
  plus_chars_lem s str str' junk t h = joined-Text _ str str' t.no_nul h t.room (
      let room : List ℕ = replicate (size - length str) 0 in
      let more = take (size - length str) str' in
      let l = length-replicate {A = ℕ} (size - length str) 0 in
      let m = length-take (size - length str) str' in
      let len = strlen_terminated str' junk h in
      let copied = copied_text str t.junk t.no_nul t.room in
      elim (bool_cases (leb size (length str' + length str))) [
        | inl q ↦ ground (
          arith,
          len,
          copied,
          strncat_lem str room str' junk (size - length str) t.no_nul h (omega arith),
        )
        | inr q ↦
            let short : length str' ≤ size - length str = ground arith in
            let whole = take_all (size - length str) str' short in
            ground
              (arith, len, copied, whole, strcat_lem str room str' junk t.no_nul h (omega arith))
      ])

  -- operator+ of two texts puts the second after the first, and cuts the result at SIZE characters.
  pub plus_lem :
      (s ob : CString) (str str' : List ℕ)
      → Text size s str
      → Text size ob str'
      → Text size (plus size s ob) (take size (str ++ str'))
  unfolding plus plus_chars
  plus_lem s ob str str' t t' =
      let len = strlen_terminated str' t'.junk t'.no_nul in
      let e : plus size s ob ≡ plus_chars size s (str' ++ 0 ∷ t'.junk) =
        ground (arith, len, t'.counted, t'.held) in
      rw e (plus_chars_lem s str str' t'.junk t t'.no_nul)
