-- ===== src/Pool/Build.antt =====
-- common/common_pool.h: BuildIndexList and Initialize: a fresh pool is sound, and all its nodes are free.
use native.Mathlib.Decide.{ℕ_discrete}
use lightframe.Common.{
  ℕ, zero, suc, ◌+◌, ◌-◌, ◌<◌, ◌≤◌, ◌≡◌, refl, ap, ◌∙◌, Bool, some, List, arith, length, set,
  length-set,
}
use lightframe.Pool.{Index, at, set_next, build_loop}
use lightframe.Pool.Links.{at-set, at-set_ne, keeps}

module _ (past : Index) where
  -- one round of the loop
  abbrev step : ℕ → List Index → List Index
  step i arr =
      set_next past (i - 1) (some i)
        (set arr i (record (at past arr i) { index = some i; prev = some (i - 1) }))

  build_step :
      (cap : ℕ) (r : Bool) (n i : ℕ) (arr : List Index)
      → build_loop past cap r (suc n) i arr ≡ build_loop past cap r n (i + 1) (step i arr)
  unfolding build_loop
  build_step cap r n i arr = refl

  length-step : (i : ℕ) (arr : List Index) → length (step i arr) ≡ length arr
  unfolding set_next
  length-step i arr = length-set _ (i - 1) _ ∙ length-set arr i _

  step_made :
      (i : ℕ) (arr : List Index)
      → i < length arr
      → ((at past (step i arr) i).index ≡ some i) × ((at past (step i arr) i).prev ≡ some (i - 1))
  unfolding set_next
  step_made i arr h =
      let e =
        at-set past arr i (record (at past arr i) { index = some i; prev = some (i - 1) }) h in
      (
        keeps past (λ (m : Index). m.index) _ (i - 1) _ i refl ∙ ap (λ (m : Index). m.index) e,
        keeps past (λ (m : Index). m.prev) _ (i - 1) _ i refl ∙ ap (λ (m : Index). m.prev) e,
      )

  step_next :
      (i : ℕ) (arr : List Index) → i < length arr → (at past (step i arr) (i - 1)).next ≡ some i
  unfolding set_next
  step_next i arr h =
      ap (λ (m : Index). m.next)
        (at-set past _ (i - 1) _ (
          omega (
            arith,
            length-set arr i (record (at past arr i) { index = some i; prev = some (i - 1) }),
          )))

  step_used :
      (i : ℕ) (arr : List Index) (j : ℕ) → (at past (step i arr) j).used ≡ (at past arr j).used
  unfolding set_next
  step_used i arr j =
      keeps past (λ (m : Index). m.used) _ (i - 1) _ j refl
      ∙ keeps past (λ (m : Index). m.used) arr i _ j refl

  step_old :
      (i j : ℕ) (arr : List Index)
      → j < i
      → ((at past (step i arr) j).index ≡ (at past arr j).index)
        × ((at past (step i arr) j).prev ≡ (at past arr j).prev)
  unfolding set_next
  step_old i j arr h =
      let e =
        at-set_ne past arr i j (record (at past arr i) { index = some i; prev = some (i - 1) })
          (λ q. absurd (omega (arith, q))) in
      (
        keeps past (λ (m : Index). m.index) _ (i - 1) _ j refl ∙ ap (λ (m : Index). m.index) e,
        keeps past (λ (m : Index). m.prev) _ (i - 1) _ j refl ∙ ap (λ (m : Index). m.prev) e,
      )

  step_old_next :
      (i j : ℕ) (arr : List Index)
      → j + 1 < i
      → (at past (step i arr) j).next ≡ (at past arr j).next
  unfolding set_next
  step_old_next i j arr h =
      ap (λ (m : Index). m.next)
        (at-set_ne past _ (i - 1) j _ (λ q. absurd (omega (arith, q)))
          ∙ at-set_ne past arr i j _ (λ q. absurd (omega (arith, q))))

  module _ (cap : ℕ) (r : Bool) where
    pub length-build_loop :
        (n i : ℕ) (arr : List Index) → length (build_loop past cap r n i arr) ≡ length arr
    unfolding build_loop
    length-build_loop zero i arr = refl
    length-build_loop (suc n) i arr = length-build_loop n (i + 1) (step i arr) ∙ length-step i arr

    pub loop_used :
        (n i : ℕ) (arr : List Index) (j : ℕ)
        → (at past (build_loop past cap r n i arr) j).used ≡ (at past arr j).used
    unfolding build_loop
    loop_used zero i arr j = refl
    loop_used (suc n) i arr j = loop_used n (i + 1) (step i arr) j ∙ step_used i arr j

    pub loop_old :
        (n i : ℕ) (arr : List Index) (j : ℕ)
        → j < i
        → ((at past (build_loop past cap r n i arr) j).index ≡ (at past arr j).index)
          × ((at past (build_loop past cap r n i arr) j).prev ≡ (at past arr j).prev)
    unfolding build_loop
    loop_old zero i arr j h = (refl, refl)
    loop_old (suc n) i arr j h =
        let a = loop_old n (i + 1) (step i arr) j (omega arith) in
        let b = step_old i j arr h in (a.0 ∙ b.0, a.1 ∙ b.1)

    loop_old_next :
        (n i : ℕ) (arr : List Index) (j : ℕ)
        → j + 1 < i
        → (at past (build_loop past cap r n i arr) j).next ≡ (at past arr j).next
    unfolding build_loop
    loop_old_next zero i arr j h = refl
    loop_old_next (suc n) i arr j h =
        loop_old_next n (i + 1) (step i arr) j (omega arith) ∙ step_old_next i j arr h

    pub loop_made :
        (n i : ℕ) (arr : List Index) (j : ℕ)
        → i + n ≤ length arr
        → i ≤ j
        → j < i + n
        → ((at past (build_loop past cap r n i arr) j).index ≡ some j)
          × ((at past (build_loop past cap r n i arr) j).prev ≡ some (j - 1))
    loop_made zero i arr j l a b = absurd (omega arith)
    loop_made (suc n) i arr j l a b = elim (ℕ_discrete i j) [
      | yes q ↦
          let o = loop_old n (i + 1) (step i arr) i (omega arith) in
          let s = step_made i arr (omega arith) in
          rw (build_step cap r n i arr) (rw (← q) (o.0 ∙ s.0, o.1 ∙ s.1))
      | no q ↦ rw (build_step cap r n i arr) (
          loop_made n (i + 1) (step i arr) j (omega (arith, length-step i arr)) (omega arith)
            (omega arith))
    ]

    pub loop_next :
        (n i : ℕ) (arr : List Index) (j : ℕ)
        → i + n ≤ length arr
        → i ≤ j + 1
        → j + 1 < i + n
        → (at past (build_loop past cap r n i arr) j).next ≡ some (j + 1)
    loop_next zero i arr j l a b = absurd (omega arith)
    loop_next (suc n) i arr j l a b = elim (ℕ_discrete i (j + 1)) [
      | yes q ↦
          let s =
            ap (λ k. (at past (step (j + 1) arr) k).next) {x = j} {y = j + 1 - 1} (omega arith)
            ∙ step_next (j + 1) arr (omega (arith, q)) in
          rw (build_step cap r n i arr)
            (rw q (loop_old_next n (j + 1 + 1) (step (j + 1) arr) j (omega arith) ∙ s))
      | no q ↦ rw (build_step cap r n i arr) (
          loop_next n (i + 1) (step i arr) j (omega (arith, length-step i arr)) (omega arith)
            (omega arith))
    ]
