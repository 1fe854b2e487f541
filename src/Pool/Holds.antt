-- ===== src/Pool/Holds.antt =====
-- common/common_pool.h: what a sound pool holds: its free nodes and its used nodes, in the order of
-- its lists. CreateIndex and DestroyIndex keep it sound.
use lightframe.Common.{
  ℕ, ◌+◌, ◌^◌, ◌<◌, ◌≡◌, ◌≢◌, refl, sym, ap, ◌∙◌, Bool, true, false, Option, none, some, List, [],
  ◌∷◌, length, length-set,
}
use lightframe.Pool.{Index, Pool, at, set_used}
use lightframe.Pool.Links.{
  All, Distinct, first_or, last, last_or, Apart, Linked, All-map, at-set, at-set_ne, keeps,
  All-last,
}
use lightframe.Pool.Moves.{}

-- The nodes whose flag is `b`.
abbrev Flagged : Index → List Index → Bool → List ℕ → Type 0
Flagged past arr b xs = All (λ i. (at past arr i).used ≡ b) xs

-- One list of a pool: where its ids are, how they are linked, and the two ends.
pub record Listed (past : Index) (cap : ℕ) (arr : List Index) (b : Bool) (head tail : Option ℕ)
    (xs : List ℕ) : Type 0 where
  pub inside : All (λ i. i < cap) xs
  pub distinct : Distinct xs
  pub flags : Flagged past arr b xs
  pub links : Linked past arr none xs none
  pub first_in : head ≡ first_or none xs
  pub last_in : tail ≡ last_or none xs

pub record Holds (past : Index) (cap : ℕ) (p : Pool) (free used : List ℕ) : Type 0 where
  pub allocated : length p.arr ≡ cap
  pub small : cap < 2 ^ 31
  pub ids : (i : ℕ) → i < cap → (at past p.arr i).index ≡ some i
  pub free_list : Listed past cap p.arr false p.free_head p.free_tail free
  pub used_list : Listed past cap p.arr true p.used_head p.used_tail used
  pub free_counted : p.free_count ≡ length free
  pub used_counted : p.object_count ≡ length used
  pub whole : length free + length used ≡ cap

-- Nodes of different flags are different nodes.
pub flags_apart :
    (past : Index) (arr : List Index) (b c : Bool) (i : ℕ) (xs : List ℕ)
    → b ≢ c
    → (at past arr i).used ≡ b
    → Flagged past arr c xs
    → Apart (some i) xs
flags_apart past arr b c i xs n e h =
    All-map xs (λ j f q. n (sym e ∙ ap (λ k. (at past arr k).used) q ∙ f)) h

pub flags_apart_last :
    (past : Index) (arr : List Index) (b c : Bool) (xs ys : List ℕ)
    → b ≢ c
    → Flagged past arr b xs
    → Flagged past arr c ys
    → Apart (last_or none xs) ys
flags_apart_last past arr b c [] ys n f g = tt
flags_apart_last past arr b c (x ∷ xs) ys n f g =
    flags_apart past arr b c (last x xs) ys n (All-last _ x xs f) g

pub flags_apart_first :
    (past : Index) (arr : List Index) (b c : Bool) (xs ys : List ℕ)
    → b ≢ c
    → Flagged past arr b xs
    → Flagged past arr c ys
    → Apart (first_or none xs) ys
flags_apart_first past arr b c [] ys n f g = tt
flags_apart_first past arr b c (x ∷ xs) ys n f g = flags_apart past arr b c x ys n f.0 g

-- Flags through SetUsed and SetFree.
pub Flagged-set_used :
    (past : Index) (arr : List Index) (i : ℕ) (b c : Bool) (xs : List ℕ)
    → Apart (some i) xs
    → Flagged past arr c xs
    → Flagged past (set_used past i b arr) c xs
unfolding set_used
Flagged-set_used past arr i b c [] a f = tt
Flagged-set_used past arr i b c (x ∷ xs) a f = (
  ap (λ (m : Index). m.used) (at-set_ne past arr i x _ a.0) ∙ f.0,
  Flagged-set_used past arr i b c xs a.1 f.1,
)

pub used-set_used :
    (past : Index) (arr : List Index) (i : ℕ) (b : Bool)
    → i < length arr
    → (at past (set_used past i b arr) i).used ≡ b
unfolding set_used
used-set_used past arr i b h = ap (λ (m : Index). m.used) (at-set past arr i _ h)

pub Flagged-kept :
    (past : Index) (arr arr' : List Index) (b : Bool) (xs : List ℕ)
    → ((j : ℕ) → (at past arr' j).used ≡ (at past arr j).used)
    → Flagged past arr b xs
    → Flagged past arr' b xs
Flagged-kept past arr arr' b xs k f = All-map xs (λ j e. k j ∙ e) f

pub length-set_used :
    (past : Index) (arr : List Index) (i : ℕ) (b : Bool)
    → length (set_used past i b arr) ≡ length arr
unfolding set_used
length-set_used past arr i b = length-set arr i _

pub index-set_used :
    (past : Index) (arr : List Index) (i : ℕ) (b : Bool) (j : ℕ)
    → (at past (set_used past i b arr) j).index ≡ (at past arr j).index
unfolding set_used
index-set_used past arr i b j = keeps past (λ (m : Index). m.index) arr i _ j refl
