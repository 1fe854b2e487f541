-- ===== src/LogQueue.antt =====
-- common/common_logqueue.h: CLogQueue, records of the log in a CCodeQueue; and common_messagequeue.h:
-- CMessageQueue, messages in one. A record is the message, what tells its source (a byte or a name),
-- two ids as the machine keeps them, and the date in eight characters. `char` is signed.
pub mod Records
pub mod Trips
mod Tests
use lightframe.Common.{
  ℕ, ◌+◌, ◌-◌, ◌^◌, Bool, Option, none, some, List, [], ◌∷◌, ◌++◌, ltb, leb, if◌then◌else◌, length,
  get_or, set, replicate, read, write, sub32, Status, ok, err, invalid_argument, unknown,
}
use lightframe.Codec.{memory}
use lightframe.Codec.Blocks.{strlen}
use lightframe.CString.{leading}
use lightframe.CodeQueue
use lightframe.CodeQueue.{Queue}

-- The variables that Pop fills: the message, the type or the name, the ids and the date.
pub record Log : Type 0 where
  pub msg : List ℕ
  pub kind : ℕ
  pub name : List ℕ
  pub id1 : ℕ
  pub id2 : ℕ
  pub date : List ℕ

-- strcpy(dst + off, src)
unfoldable pub strcpy : List ℕ → ℕ → List ℕ → List ℕ
strcpy dst off src = write dst off (leading (strlen src) src ++ 0 ∷ [])

-- (int32_t)c for a char c
unfoldable pub widen : ℕ → ℕ
widen c = if ltb c 128 then c else c + (2 ^ 32 - 256)

-- What Pop with a type does with the record that the queue gives, of `len` bytes.
unfoldable pub take_log : ℕ → Log → Status × ℕ × Option (List ℕ) × Queue → Status × Log × Queue
take_log size l (err e, len, info, q) = (err e, l, q)
take_log size l (ok, len, none, q) = (ok, l, q)
take_log size l (ok, len, some bytes, q) =
    let n = sub32 len 17 in
    if ltb size n then (err unknown, l, q) else (
      ok,
      record l {
        msg = set (write l.msg 0 (read bytes 0 n)) n 0;
        kind = get_or bytes n 0;
        id1 = widen (get_or bytes (n + 1) 0);
        id2 = widen (get_or bytes (n + 5) 0);
        date = write l.date 0 (read bytes (n + 9) 8);
      },
      q,
    )

-- The same of Pop with a name.
unfoldable pub take_named_log :
    ℕ → Log → Status × ℕ × Option (List ℕ) × Queue → Status × Log × Queue
take_named_log size l (err e, len, info, q) = (err e, l, q)
take_named_log size l (ok, len, none, q) = (ok, l, q)
take_named_log size l (ok, len, some bytes, q) =
    let n = sub32 len 46 in
    if ltb size n then (err unknown, l, q) else (
      ok,
      record l {
        msg = set (write l.msg 0 (read bytes 0 n)) n 0;
        name = set (write l.name 0 (read bytes n 30)) 30 0;
        id1 = widen (get_or bytes (n + 30) 0);
        id2 = widen (get_or bytes (n + 34) 0);
        date = write l.date 0 (read bytes (n + 38) (len - (n + 38)));
      },
      q,
    )

-- `limit` is enmMaxLogInfoLength, `old` is what the array szLogInfo holds before, and `today` is what
-- sprintf makes of the current date.
module _ (big : Bool) (cap limit : ℕ) (old today : List ℕ) where
  -- szLogInfo from `off` on: the ids and the date. The date's NUL is one place past the array where the
  -- record fills it; the store, undefined in the code, changes nothing here.
  unfoldable pub put_rest : List ℕ → ℕ → ℕ → ℕ → Option (List ℕ) → List ℕ
  put_rest info off id1 id2 date =
      let info' = write (write info off (memory big 4 id1)) (off + 4) (memory big 4 id2) in
      elim date [
        | none ↦ write info' (off + 8) (today ++ 0 ∷ [])
        | some d ↦ strcpy info' (off + 8) d
      ]

  -- Push with a type
  unfoldable pub push_log : Option (List ℕ) → ℕ → ℕ → ℕ → Option (List ℕ) → Queue → Status × Queue
  push_log msg kind id1 id2 date q = elim msg [
    | none ↦ (err invalid_argument, q)
    | some text ↦
        let len = strlen text in
        if ltb (limit - 17) len
        then (err unknown, q)
        else let info = put_rest (set (strcpy old 0 text) len kind) (len + 1) id1 id2 date in
          CodeQueue.push big cap (some info) (len + 17) q
  ]

  -- Push with a name
  unfoldable pub push_named_log :
      Option (List ℕ) → List ℕ → ℕ → ℕ → Option (List ℕ) → Queue → Status × Queue
  push_named_log msg name id1 id2 date q = elim msg [
    | none ↦ (err invalid_argument, q)
    | some text ↦
        let len = strlen text in
        if ltb (limit - 46) len
        then (err unknown, q)
        else if ltb 30 (strlen name)
        then (err unknown, q)
        else let n = leading 30 name in
          let named = write (strcpy old 0 text) len (n ++ replicate (30 - length n) 0) in
          let info = put_rest named (len + 30) id1 id2 date in
          CodeQueue.push big cap (some info) (len + 46) q
  ]

  -- Pop with a type; the last two arguments say whether the pointers are NULL.
  unfoldable pub pop_log : ℕ → Bool → Bool → Log × Queue → Status × Log × Queue
  pop_log size no_msg no_date (l, q) =
      if no_msg
      then (err invalid_argument, l, q)
      else if no_date
      then (err invalid_argument, l, q)
      else take_log size l (CodeQueue.pop big cap (some old) limit 0 q)

  -- Pop with a name
  unfoldable pub pop_named_log : ℕ → Bool → Bool → Log × Queue → Status × Log × Queue
  pop_named_log size no_msg no_date (l, q) =
      if no_msg
      then (err invalid_argument, l, q)
      else if no_date
      then (err invalid_argument, l, q)
      else take_named_log size l (CodeQueue.pop big cap (some old) limit 0 q)

-- CMessageQueue. A message is the bytes of its buffer and their number; `limit` is enmMaxMessageSize.
module _ (big : Bool) (cap limit : ℕ) where
  unfoldable pub push_message : Option (List ℕ × ℕ) → Queue → Status × Queue
  push_message none q = (err invalid_argument, q)
  push_message (some (bytes, size)) q = CodeQueue.push big cap (some bytes) size q

  unfoldable pub pop_message : Option (List ℕ × ℕ) × Queue → Status × Option (List ℕ × ℕ) × Queue
  pop_message (none, q) = (err invalid_argument, none, q)
  pop_message (some (bytes, size), q) =
      let (ret, size', dst, q') = CodeQueue.pop big cap (some bytes) limit size q in
      let bytes' : List ℕ = elim dst [ none ↦ bytes | some b ↦ b ] in
      (ret, some (bytes', size'), q')
