-- ===== src/LogQueue/Trips.antt =====
-- common/common_logqueue.h: what Push puts into the queue, and what Pop makes of it.
use lightframe.Common.{
  write_text, write_at, drop, suc, bool_cases, ℕ, ◌+◌, ◌-◌, ◌^◌, ◌≤◌, ◌<◌, ◌≡◌, ◌↔◌, ◌⊎◌, inl, inr,
  refl, sym, ap, ◌∙◌, Bool, false, Option, some, List, [], ◌∷◌, ◌++◌, append_assoc, arith, length,
  get_or, read, write, read_split, read-write, set-write, length-append, ltb, sub32, ok,
}
use lightframe.Codec.{memory, little}
use lightframe.Codec.Strings.{NoNul, strlen_terminated}
use lightframe.CodeQueue.{Queue}
use lightframe.CodeQueue.Holds.{Holds, frame, frames, length-frame, length-memory}
use lightframe.CodeQueue.Push.{push_lem}
use lightframe.CodeQueue.Pop.{popped, pop_lem}
use lightframe.LogQueue.{Log, widen, push_log, pop_log, take_log}
use lightframe.LogQueue.Records.{Dated, ending, length-ending, put_kind, put_rest_lem, read_record}

-- A record with a type.
abbrev pub log_record : Bool → List ℕ → ℕ → ℕ → ℕ → List ℕ → List ℕ
log_record big str kind id1 id2 d = (str ++ kind ∷ []) ++ ending big id1 id2 d

length-log_record :
    (big : Bool) (str : List ℕ) (kind id1 id2 : ℕ) (d : List ℕ)
    → length d ≡ 8
    → length (log_record big str kind id1 id2 d) ≡ length str + 17
length-log_record big str kind id1 id2 d e = omega (
  arith,
  length-append (str ++ kind ∷ []) (ending big id1 id2 d),
  length-append str (kind ∷ []),
  length-ending big id1 id2 d,
)

-- The parts of a record in the array that it was copied into.
parts :
    (big : Bool) (str : List ℕ) (kind id1 id2 : ℕ) (d old : List ℕ)
    → length d ≡ 8
    → length str + 17 ≤ length old
    → let n = length str in
      let buf = write old 0 (log_record big str kind id1 id2 d) in
      (read buf 0 n ≡ str)
      × (get_or buf n 0 ≡ kind)
      × (get_or buf (n + 1) 0 ≡ get_or (memory big 4 id1) 0 0)
      × (get_or buf (n + 5) 0 ≡ get_or (memory big 4 id2) 0 0)
      × (read buf (n + 9) 8 ≡ d)
unfolding read
parts big str kind id1 id2 d old eight fits =
    let n = length str in
    let rec = log_record big str kind id1 id2 d in
    let buf = write old 0 rec in
    let m1 = memory big 4 id1 in
    let m2 = memory big 4 id2 in
    let len : n + (1 + (4 + (4 + 8))) ≡ length rec =
      omega (arith, length-log_record big str kind id1 id2 d eight) in
    let whole : read buf 0 (n + (1 + (4 + (4 + 8)))) ≡ str ++ ((kind ∷ []) ++ (m1 ++ (m2 ++ d))) =
      read-write old 0 rec _ len (omega (arith, len))
      ∙ append_assoc str (kind ∷ []) (m1 ++ (m2 ++ d)) in
    let a = read_split buf 0 n (1 + (4 + (4 + 8))) str _ refl whole in
    let b = read_split buf (0 + n) 1 (4 + (4 + 8)) (kind ∷ []) _ refl a.1 in
    let c = read_split buf (0 + n + 1) 4 (4 + 8) m1 _ (sym (length-memory big 4 id1)) b.1 in
    let e = read_split buf (0 + n + 1 + 4) 4 8 m2 _ (sym (length-memory big 4 id2)) c.1 in
    let byte = λ (xs : List ℕ). get_or xs 0 0 in
    let at0 : 0 + n ≡ n = omega arith in
    let at1 : 0 + n + 1 ≡ n + 1 = omega arith in
    let at5 : 0 + n + 1 + 4 ≡ n + 5 = omega arith in
    let at9 : 0 + n + 1 + 4 + 4 ≡ n + 9 = omega arith in
    (
      a.0,
      ap (λ k. get_or buf k 0) (sym at0) ∙ ap byte b.0,
      ap (λ k. get_or buf k 0) (sym at1) ∙ ap byte c.0,
      ap (λ k. get_or buf k 0) (sym at5) ∙ ap byte e.0,
      ap (λ k. read buf k 8) (sym at9) ∙ e.1,
    )

-- A message, its type, two ids and a date in eight characters.
module _ (big : Bool) (cap limit : ℕ) (old today : List ℕ) (str : List ℕ) (kind id1 id2 : ℕ)
    (d : List ℕ) (eight : length d ≡ 8) (fits : length str + 17 < limit)
    (whole : limit ≡ length old) where
  -- Push of a message that fits its record, which fits the queue, appends the record.
  pub push_log_lem :
      (q : Queue) (ps : List (List ℕ)) (junk : List ℕ) (date : Option (List ℕ))
      → Holds big cap q ps
      → NoNul str
      → Dated today date d
      → length str + 17 + 4 + length (frames big ps) + 8 ≤ cap
      → let (ret, q') =
          push_log big cap limit old today (some (str ++ 0 ∷ junk)) kind id1 id2 date q in
        (ret ≡ ok) × Holds big cap q' (ps ++ log_record big str kind id1 id2 d ∷ [])
  unfolding push_log
  push_log_lem q ps junk date v h t room =
      let n = length str in
      let rec = log_record big str kind id1 id2 d in
      let info = write old 0 (rec ++ 0 ∷ []) in
      let len : length rec ≡ n + 17 = length-log_record big str kind id1 id2 d eight in
      let laid = put_rest_lem big cap limit old today (str ++ kind ∷ []) d id1 id2 date t in
      let at_end : length (str ++ kind ∷ []) ≡ n + 1 = length-append str (kind ∷ []) in
      let bytes : read info 0 (n + 17) ≡ rec =
        ap (read info 0) (sym len) ∙ read_record old rec (omega arith) in
      let short : ltb (limit - 17) n ≡ false = ground arith in
      let r = push_lem big cap q ps v info (n + 17) (omega arith) room in
      rw (strlen_terminated str junk h, put_kind old str junk kind h, short, rw at_end at laid)
        (rw bytes at r)

  -- Pop of a record from the head of the queue, with room for the message, gives the message with its
  -- NUL, the type and the date; of each id it gives the first byte, taken for a signed char.
  pub pop_log_lem :
      (l : Log) (q : Queue) (ps : List (List ℕ)) (size : ℕ)
      → Holds big cap q (log_record big str kind id1 id2 d ∷ ps)
      → length str ≤ size
      → length str < length l.msg
      → length d ≤ length l.date
      → (q' : Queue) × (pop_log big cap limit old today size false false (l, q) ≡ (
        ok,
        record l {
          msg = str ++ 0 ∷ drop (suc (length str)) l.msg;
          kind = kind;
          id1 = widen (get_or (memory big 4 id1) 0 0);
          id2 = widen (get_or (memory big 4 id2) 0 0);
          date = d ++ drop (length d) l.date;
        },
        q',
      ))
        × Holds big cap q' ps
  unfolding pop_log take_log
  pop_log_lem l q ps size v room msg_room date_room =
      let n = length str in
      let rec = log_record big str kind id1 id2 d in
      let len : length rec ≡ n + 17 = length-log_record big str kind id1 id2 d eight in
      let r = pop_lem big cap q rec ps v old limit (omega arith) 0 (omega arith) in
      let cut : sub32 (length rec) 17 ≡ n = omega (
        arith,
        len,
        v.reserved,
        v.small,
        length-append (frame big rec) (frames big ps),
        length-frame big rec,
      ) in
      let wide : ltb size n ≡ false = ground arith in
      let p = parts big str kind id1 id2 d old eight (omega arith) in
      let ended = set-write l.msg 0 n str 0 (omega arith) ∙ write_text l.msg str msg_room in
      let dated = write_at [] l.date 0 d refl date_room in
      (
        popped big cap q rec ps v,
        ap (take_log size l) r.0 ∙ rw (cut, wide, p.0, p.1, p.2, p.3, p.4, ended, dated) refl,
        r.1,
      )

  -- Push of a record of a message and a date of eight characters, shorter than the array that it is laid
  -- out in, into an empty queue with room for it, and then Pop into arrays with room for the message
  -- with its NUL and for the date, give back the message, the type and the date, and leave the queue
  -- empty; of each id only the first byte, as the machine keeps it, comes back, taken for a signed
  -- char.
  pub pop_log-push_log :
      (l : Log) (q : Queue) (junk : List ℕ) (date : Option (List ℕ)) (size : ℕ)
      → Holds big cap q []
      → NoNul str
      → Dated today date d
      → length str + 29 ≤ cap
      → length str ≤ size
      → length str < length l.msg
      → length d ≤ length l.date
      → let (ret, q') =
          push_log big cap limit old today (some (str ++ 0 ∷ junk)) kind id1 id2 date q in
        (ret ≡ ok)
        × (q'' : Queue) × (pop_log big cap limit old today size false false (l, q') ≡ (
          ok,
          record l {
            msg = str ++ 0 ∷ drop (suc (length str)) l.msg;
            kind = kind;
            id1 = widen (get_or (memory big 4 id1) 0 0);
            id2 = widen (get_or (memory big 4 id2) 0 0);
            date = d ++ drop (length d) l.date;
          },
          q'',
        ))
        × Holds big cap q'' []
  pop_log-push_log l q junk date size v h t room r msg_room date_room =
      let pushed = push_log_lem q [] junk date v h t (omega arith) in
      let popped' = pop_log_lem l _ [] size pushed.1 r msg_room date_room in
      (pushed.0, popped'.0, popped'.1, popped'.2)

-- The first byte of an id in the memory of a little-endian machine, taken for a signed char, is the id
-- exactly if the id, as the bit pattern of an int32_t, is below 128 or at least 2 ^ 32 - 128.
pub widen-memory :
    (id : ℕ)
    → id < 2 ^ 32
    → (widen (get_or (memory false 4 id) 0 0) ≡ id) ↔ ((id < 128) ⊎ (2 ^ 32 ≤ id + 128))
unfolding widen memory little
widen-memory id b = (
  λ e. elim (bool_cases (ltb id 128)) [ inl l ↦ inl (ground arith) | inr l ↦ inr (ground arith) ],
  λ s. elim s [ inl l ↦ ground arith | inr l ↦ ground arith ],
)
