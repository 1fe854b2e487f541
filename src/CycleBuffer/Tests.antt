-- ===== src/CycleBuffer/Tests.antt =====
-- Runs of the cycle buffer, and the theorems about it at concrete inputs.
use lightframe.Common.{
  ℕ, ◌+◌, ◌-◌, ◌≡◌, refl, inl, inr, some, List, [], ◌∷◌, ◌++◌, arith, replicate, read, write,
}
use lightframe.CycleBuffer.{
  Cycle, count, write_tail, write_to_head, read_head, read_from_tail, store,
}
use lightframe.CycleBuffer.Holds.{Holds, write_tail_lem}
use lightframe.CycleBuffer.Reads.{read_head_lem}
use lightframe.CycleBuffer.Ends.{write_to_head_misplaces, read_from_tail_lem, cut}

-- 1 2 3, going round the end of four places.
abbrev round : Cycle
round = record { read_index = 2; write_index = 1; data_size = 3; arr_buf = 3 ∷ 9 ∷ 1 ∷ 2 ∷ [] }

abbrev content : List ℕ
content = 1 ∷ 2 ∷ 3 ∷ []

round-Holds : Holds 4 round content
round-Holds = record {
  positive = omega arith;
  allocated = omega arith;
  read_in = omega arith;
  write_in = omega arith;
  counted = refl;
  bounded = omega arith;
  placed = inr refl;
  bytes = refl;
}

-- 1 2 in the middle of eight places.
abbrev inner : Cycle
inner = record {
  read_index = 2;
  write_index = 4;
  data_size = 2;
  arr_buf = 9 ∷ 9 ∷ 1 ∷ 2 ∷ 9 ∷ 9 ∷ 9 ∷ 9 ∷ [];
}

inner-Holds : Holds 8 inner (1 ∷ 2 ∷ [])
inner-Holds = record {
  positive = omega arith;
  allocated = omega arith;
  read_in = omega arith;
  write_in = omega arith;
  counted = refl;
  bounded = omega arith;
  placed = inl refl;
  bytes = refl;
}

abbrev full : Cycle
full = record { read_index = 2; write_index = 2; data_size = 4; arr_buf = 3 ∷ 4 ∷ 1 ∷ 2 ∷ [] }

full-Holds : Holds 4 full (1 ∷ 2 ∷ 3 ∷ 4 ∷ [])
full-Holds = record {
  positive = omega arith;
  allocated = omega arith;
  read_in = omega arith;
  write_in = omega arith;
  counted = refl;
  bounded = omega arith;
  placed = inr refl;
  bytes = refl;
}

write_runs : write_tail 4 (some (7 ∷ [])) 1 round ≡ (
  count 1,
  record { read_index = 2; write_index = 2; data_size = 4; arr_buf = 3 ∷ 7 ∷ 1 ∷ 2 ∷ [] },
)
unfolding write_tail store write read
write_runs = refl

write_tail_lem_example :
    let (ret, c') = write_tail 4 (some (7 ∷ [])) 1 round in
    (ret ≡ count 1) × Holds 4 c' (content ++ read (7 ∷ []) 0 1)
write_tail_lem_example =
    write_tail_lem 4 round content round-Holds (7 ∷ []) 1 (omega arith) (omega arith)

read_head_lem_example :
    let (n, dst, c') = read_head 4 (some (replicate 3 0)) 2 round in
    (n ≡ 2) × (dst ≡ some (write (replicate 3 0) 0 (1 ∷ 2 ∷ []))) × Holds 4 c' (3 ∷ [])
read_head_lem_example =
    read_head_lem 4 round (1 ∷ 2 ∷ []) (3 ∷ []) round-Holds (replicate 3 0) 2 (omega arith)
      (omega arith)

write_to_head_misplaces_example :
    let (ret, c') = write_to_head 8 (some (5 ∷ 6 ∷ 7 ∷ [])) 3 inner in
    (ret ≡ count 3)
    × (c'.read_index ≡ 2)
    × (c'.write_index ≡ 8 + 2 - 3)
    × ((read_head 8 (some (0 ∷ [])) 1 c').1 ≡ some (write (0 ∷ []) 0 (1 ∷ [])))
write_to_head_misplaces_example =
    write_to_head_misplaces 8 inner (1 ∷ []) (2 ∷ []) inner-Holds (5 ∷ 6 ∷ 7 ∷ []) (0 ∷ []) 3
      (omega arith) (omega arith) (omega arith) (omega arith)

read_from_tail_lem_example :
    (read_from_tail 4 (some (replicate 2 0)) 2 round ≡ (
      2,
      some (write (replicate 2 0) 0 (2 ∷ 3 ∷ [])),
      cut 4 round (1 ∷ []) (2 ∷ 3 ∷ []) round-Holds 2,
    ))
    × Holds 4 (cut 4 round (1 ∷ []) (2 ∷ 3 ∷ []) round-Holds 2) (1 ∷ [])
read_from_tail_lem_example =
    read_from_tail_lem 4 round (1 ∷ []) (2 ∷ 3 ∷ []) round-Holds (replicate 2 0) 2 (omega arith)
      (omega arith) (omega arith) (omega arith)
