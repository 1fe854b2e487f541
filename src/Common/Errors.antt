-- ===== src/Common/Errors.antt =====
-- common/common_errordef.h: S_OK and the error codes that the modelled code returns. Every error
-- code is negative as an int32_t, so the code's test `0 > ret` is the test for `err`.
pub data Error : Type 0 where
  invalid_argument : Error
  encode_buf_length : Error
  decode_buf_length : Error
  max_length : Error
  queue_not_initialized : Error
  full_queue : Error
  queue_shattered : Error
  space_not_enough : Error
  empty_queue : Error
  invalid_package : Error
  invalid_head : Error
  invalid_tail : Error
  invalid_object_index : Error
  object_index_not_used : Error
  unknown : Error
  null_pointer : Error

pub data Status : Type 0 where
  ok : Status
  err : Error → Status

-- `ret = f(...); if (0 > ret) return ret; ...` on a state that the calls update in place: the rest
-- runs on what the first call left, and an error is returned with what it left.
abbrev pub next {ℓ} : {S : Type ℓ} → Status × S → (S → Status × S) → Status × S
next (ok, s) k = k s
next (err e, s) k = (err e, s)

infixr 5 ◌>>◌
abbrev pub ◌>>◌ {ℓ} : {S : Type ℓ} → (S → Status × S) → (S → Status × S) → S → Status × S
◌>>◌ m k s = next (m s) k
