-- ===== src/CycleBuffer.antt =====
-- common/common_cyclebuffer.h: CycleBuffer<SIZE>, a ring of bytes with two ends. Every public call
-- holds the buffer's lock from its first access to its last, so a call is one step. Indices and counts
-- are never negative and stand for int32_t values; a size argument below zero takes the branch of 0.
pub mod Holds
pub mod Reads
pub mod Ends
mod Tests
use lightframe.Common.{
  ℕ, ◌+◌, ◌-◌, Option, none, some, List, [], ltb, leb, ◌==◌, if◌then◌else◌, replicate, read, write,
  min,
}

pub record Cycle : Type 0 where
  pub read_index : ℕ
  pub write_index : ℕ
  pub data_size : ℕ
  pub arr_buf : List ℕ

-- The int32_t that Write returns: a count, or -1.
pub data Written : Type 0 where
  count : ℕ → Written
  no_space : Written

module _ (size : ℕ) where
  pub reset : Cycle
  reset = record { read_index = 0; write_index = 0; data_size = 0; arr_buf = replicate size 0 }

  -- The stores of Write, once the space is known to suffice.
  pub store : List ℕ → ℕ → Cycle → Cycle
  store bytes n c =
      if ltb c.write_index c.read_index
      then record c {
        arr_buf = write c.arr_buf c.write_index (read bytes 0 n);
        write_index = c.write_index + n;
        data_size = c.data_size + n;
      }
      else let left = size - c.write_index in
        if ltb left n
        then record c {
          arr_buf =
              write (write c.arr_buf c.write_index (read bytes 0 left)) 0
                (read bytes left (n - left));
          write_index = n - left;
          data_size = c.data_size + n;
        }
        else record c {
          arr_buf = write c.arr_buf c.write_index (read bytes 0 n);
          write_index = c.write_index + n;
          data_size = c.data_size + n;
        }

  pub write_tail : Option (List ℕ) → ℕ → Cycle → Written × Cycle
  write_tail src n c = elim src [
    | none ↦ (count 0, c)
    | some bytes ↦
        if leb n 0
        then (count 0, c)
        else if ltb size (c.data_size + n)
        then (no_space, c)
        else (count n, store bytes n c)
  ]

  -- WriteToHead puts bytes before those that the buffer holds.
  pub write_to_head : Option (List ℕ) → ℕ → Cycle → Written × Cycle
  write_to_head src n c = elim src [
    | none ↦ (count 0, c)
    | some bytes ↦
        if leb n 0
        then (count 0, c)
        else if ltb size (c.data_size + n)
        then (no_space, c)
        else if ltb c.write_index c.read_index
        then (
          count n,
          record c {
            arr_buf = write c.arr_buf (c.read_index - n) (read bytes 0 n);
            read_index = c.read_index - n;
            data_size = c.data_size + n;
          },
        )
        else if c.write_index == c.read_index
        then write_tail (some bytes) n c
        else let left = if ltb c.read_index n then c.read_index else n in
          if ltb left n
          then (
            count n,
            record c {
              arr_buf =
                  write (write c.arr_buf (size - (n - left)) (read bytes 0 (n - left))) 0
                    (read bytes (n - left) left);
              write_index = size - (n - left);
              data_size = c.data_size + n;
            },
          )
          else if ltb c.read_index n
          then (count 0, c)
          else (
            count n,
            record c {
              arr_buf = write c.arr_buf (c.read_index - n) (read bytes 0 n);
              read_index = c.read_index - n;
              data_size = c.data_size + n;
            },
          )
  ]

  -- The bytes from the read index on, copied out in one or two parts.
  pub copy_wrapped : List ℕ → ℕ → Cycle → List ℕ
  copy_wrapped out n c =
      let left = size - c.read_index in
      if ltb left n
      then write (write out 0 (read c.arr_buf c.read_index left)) left (read c.arr_buf 0 (n - left))
      else write out 0 (read c.arr_buf c.read_index n)

  -- Read: the count, the destination and the buffer.
  pub read_head : Option (List ℕ) → ℕ → Cycle → ℕ × Option (List ℕ) × Cycle
  read_head dst want c = elim dst [
    | none ↦ (0, none, c)
    | some out ↦
        if leb want 0
        then (0, some out, c)
        else let n = if ltb c.data_size want then c.data_size else want in
          if leb n 0
          then (0, some out, c)
          else if ltb c.read_index c.write_index
          then (
            n,
            some (write out 0 (read c.arr_buf c.read_index n)),
            record c { read_index = c.read_index + n; data_size = c.data_size - n },
          )
          else let left = size - c.read_index in
            (
              n,
              some (copy_wrapped out n c),
              record c {
                read_index = if ltb left n then n - left else c.read_index + n;
                data_size = c.data_size - n;
              },
            )
  ]

  -- PeekRead copies out and changes nothing: the count and the destination.
  pub peek_read : Option (List ℕ) → ℕ → Cycle → ℕ × Option (List ℕ)
  peek_read dst want c = elim dst [
    | none ↦ (0, none)
    | some out ↦
        if leb want 0
        then (0, some out)
        else let n = if ltb c.data_size want then c.data_size else want in
          if ltb c.read_index c.write_index
          then (n, some (write out 0 (read c.arr_buf c.read_index n)))
          else if c.read_index == c.write_index
          then (0, some out)
          else (n, some (copy_wrapped out n c))
  ]

  -- ReadFromTail takes the bytes that were written last.
  pub read_from_tail : Option (List ℕ) → ℕ → Cycle → ℕ × Option (List ℕ) × Cycle
  read_from_tail dst want c = elim dst [
    | none ↦ (0, none, c)
    | some out ↦
        if leb want 0
        then (0, some out, c)
        else let n = if ltb c.data_size want then c.data_size else want in
          if ltb c.read_index c.write_index
          then if ltb c.write_index n then (0, some out, c) else (
            n,
            some (write out 0 (read c.arr_buf (c.write_index - n) n)),
            record c { write_index = c.write_index - n; data_size = c.data_size - n },
          )
          else if c.read_index == c.write_index
          then (0, some out, c)
          else if leb want c.write_index
          then (
            n,
            some (write out 0 (read c.arr_buf (c.write_index - want) want)),
            record c { write_index = c.write_index - want; data_size = c.data_size - n },
          )
          else let tail_size = n - c.write_index in
            let write_index = size - tail_size in
            (
              n,
              some (
                  write (write out 0 (read c.arr_buf write_index tail_size)) tail_size
                    (read c.arr_buf 0 c.write_index)),
              record c { write_index = write_index; data_size = c.data_size - n },
            )
  ]

  unfoldable pub data_size : Cycle → ℕ
  data_size c = c.data_size

  pub capacity : ℕ
  capacity = size

  pub space : Cycle → ℕ
  space c = size - c.data_size
