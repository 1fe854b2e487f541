-- ===== src/Pool/Fresh.antt =====
-- common/common_pool.h: Initialize: a fresh pool is sound, and all its nodes are free.
use lightframe.Common.{
  ℕ, zero, suc, ◌+◌, ◌-◌, ◌^◌, ◌<◌, ◌≤◌, ◌≡◌, refl, sym, ap, ◌∙◌, Bool, false, Option, none, some,
  List, [], ◌∷◌, arith, length, set, replicate, length-set, length-replicate, ok,
}
use lightframe.Pool.{Index, blank, at, set_next, build_loop, build_index_list, initialize}
use lightframe.Pool.Links.{All, Distinct, first_or, last_or, Linked, at-set, at-set_ne, keeps}
use lightframe.Pool.Holds.{Holds}
use lightframe.Pool.Build.{length-build_loop, loop_used, loop_old, loop_made, loop_next}

-- k, k + 1, and so on: n numbers
abbrev pub count : ℕ → ℕ → List ℕ
count k zero = []
count k (suc n) = k ∷ count (k + 1) n

length-count : (k n : ℕ) → length (count k n) ≡ n
length-count k zero = refl
length-count k (suc n) = ap suc (length-count (k + 1) n)

All-count : (P : ℕ → Type 0) (k n : ℕ) → ((j : ℕ) → k ≤ j → j < k + n → P j) → All P (count k n)
All-count P k zero h = tt
All-count P k (suc n) h = (
  h k (omega arith) (omega arith),
  All-count P (k + 1) n (λ j a b. h j (omega arith) (omega arith)),
)

Distinct-count : (k n : ℕ) → Distinct (count k n)
Distinct-count k zero = tt
Distinct-count k (suc n) =
    (All-count _ (k + 1) n (λ j a b q. absurd (omega (arith, q))), Distinct-count (k + 1) n)

last_or-count : (k n : ℕ) → last_or none (count k (suc n)) ≡ some (k + n)
last_or-count k zero = ap some (omega arith)
last_or-count k (suc n) =
    last_or-count (k + 1) n ∙ ap some {x = k + 1 + n} {y = k + suc n} (omega arith)

count_ends :
    (n : ℕ)
    → 0 < n
    → (some 0 ≡ first_or none (count 0 n)) × (some (n - 1) ≡ last_or none (count 0 n))
count_ends zero z = absurd (omega arith)
count_ends (suc n) z =
    (refl, ap some {x = suc n - 1} {y = 0 + n} (omega arith) ∙ sym (last_or-count 0 n))

at-replicate : (past v : Index) (n j : ℕ) → j < n → at past (replicate n v) j ≡ v
unfolding at
at-replicate past v zero j h = absurd (omega arith)
at-replicate past v (suc n) zero h = refl
at-replicate past v (suc n) (suc j) h = at-replicate past v n j (omega arith)

module _ (past : Index) (cap : ℕ) (r : Bool) (z : 0 < cap) where
  start : List Index
  start =
      set (replicate cap blank) 0
        (record (at past (replicate cap blank) 0) { index = some 0; prev = none })

  looped : List Index
  looped = build_loop past cap r (cap - 1) 1 start

  fresh : List Index
  fresh = build_index_list past cap r (replicate cap blank)

  fresh_last : fresh ≡ set looped (cap - 1) (record (at past looped (cap - 1)) { next = none })
  unfolding fresh looped start build_index_list set_next
  fresh_last = refl

  length-start : length start ≡ cap
  unfolding start
  length-start = length-set _ 0 _ ∙ length-replicate cap blank

  length-looped : length looped ≡ cap
  unfolding looped
  length-looped = length-build_loop past cap r (cap - 1) 1 start ∙ length-start

  start_first : ((at past start 0).index ≡ some 0) × ((at past start 0).prev ≡ none)
  unfolding start
  start_first =
      let e =
        at-set past (replicate cap blank) 0
          (record (at past (replicate cap blank) 0) { index = some 0; prev = none })
          (omega (arith, length-replicate cap blank)) in
      (ap (λ (m : Index). m.index) e, ap (λ (m : Index). m.prev) e)

  fresh_first : ((at past fresh 0).index ≡ some 0) × ((at past fresh 0).prev ≡ none)
  unfolding looped
  fresh_first =
      let o = loop_old past cap r (cap - 1) 1 start 0 (omega arith) in
      rw fresh_last (
        keeps past (λ (m : Index). m.index) looped (cap - 1) _ 0 refl ∙ o.0 ∙ start_first.0,
        keeps past (λ (m : Index). m.prev) looped (cap - 1) _ 0 refl ∙ o.1 ∙ start_first.1,
      )

  fresh_later :
      (j : ℕ)
      → 0 < j
      → j < cap
      → ((at past fresh j).index ≡ some j) × ((at past fresh j).prev ≡ some (j - 1))
  unfolding looped
  fresh_later j a b =
      let o =
        loop_made past cap r (cap - 1) 1 start j (omega (arith, length-start)) (omega arith)
          (omega arith) in
      rw fresh_last (
        keeps past (λ (m : Index). m.index) looped (cap - 1) _ j refl ∙ o.0,
        keeps past (λ (m : Index). m.prev) looped (cap - 1) _ j refl ∙ o.1,
      )

  fresh_next : (j : ℕ) → j + 1 < cap → (at past fresh j).next ≡ some (j + 1)
  unfolding looped
  fresh_next j h = rw fresh_last (
      ap (λ (m : Index). m.next)
        (at-set_ne past looped (cap - 1) j _ (λ q. absurd (omega (arith, q))))
      ∙ loop_next past cap r (cap - 1) 1 start j (omega (arith, length-start)) (omega arith)
          (omega arith))

  fresh_end : (j : ℕ) → j + 1 ≡ cap → (at past fresh j).next ≡ none
  fresh_end j h =
      let e : cap - 1 ≡ j = omega arith in
      rw (fresh_last, e)
        (ap (λ (m : Index). m.next) (at-set past looped j _ (omega (arith, length-looped))))

  fresh_unused : (j : ℕ) → j < cap → (at past fresh j).used ≡ false
  unfolding looped start
  fresh_unused j h = rw fresh_last (
      keeps past (λ (m : Index). m.used) looped (cap - 1) _ j refl
      ∙ loop_used past cap r (cap - 1) 1 start j
      ∙ keeps past (λ (m : Index). m.used) (replicate cap blank) 0 _ j refl
      ∙ ap (λ (m : Index). m.used) (at-replicate past blank cap j h))

  fresh_links :
      (n k : ℕ) (p : Option ℕ)
      → k + n ≡ cap
      → (0 < n → (at past fresh k).prev ≡ p)
      → Linked past fresh p (count k n) none
  fresh_links zero k p e h = tt
  fresh_links (suc zero) k p e h = (h (omega arith), fresh_end k (omega arith), tt)
  fresh_links (suc (suc n)) k p e h = (
    h (omega arith),
    fresh_next k (omega arith),
    fresh_links (suc n) (k + 1) (some k) (omega arith) (λ q.
        (fresh_later (k + 1) (omega arith) (omega arith)).1
        ∙ ap some {x = k + 1 - 1} {y = k} (omega arith)),
  )

  fresh_ids : (j : ℕ) → j < cap → (at past fresh j).index ≡ some j
  fresh_ids zero h = fresh_first.0
  fresh_ids (suc j) h = (fresh_later (suc j) (omega arith) h).0

  length-fresh : length fresh ≡ cap
  length-fresh = rw fresh_last (
      length-set looped (cap - 1) (record (at past looped (cap - 1)) { next = none })
      ∙ length-looped)

  -- Initialize succeeds and gives a sound pool in which every node is free, from 0 on.
  pub initialize-Holds :
      cap < 2 ^ 31
      → let (ret, p) = initialize past cap r in (ret ≡ ok) × Holds past cap p (count 0 cap) []
  unfolding initialize fresh
  initialize-Holds s = (
    refl,
    record {
      allocated = length-fresh;
      small = s;
      ids = fresh_ids;
      free_list = record {
        inside = All-count _ 0 cap (λ j a b. omega arith);
        distinct = Distinct-count 0 cap;
        flags = All-count _ 0 cap (λ j a b. fresh_unused j (omega arith));
        links = fresh_links cap 0 none (omega arith) (λ q. fresh_first.1);
        first_in = (count_ends cap z).0;
        last_in = (count_ends cap z).1;
      };
      used_list = record {
        inside = tt;
        distinct = tt;
        flags = tt;
        links = tt;
        first_in = refl;
        last_in = refl;
      };
      free_counted = sym (length-count 0 cap);
      used_counted = refl;
      whole = omega (arith, length-count 0 cap);
    },
  )
