-- ===== src/Xtea/Tests.antt =====
-- Runs of xtea and CXTEA, and the theorems about them at concrete inputs.
use lightframe.Common.{ℕ, ◌≡◌, refl, false, some, List, [], ◌∷◌, arith, replicate, read, write}
use lightframe.Xtea.{mix, mix_low, mix_high, encode_loop, xtea, negate}
use lightframe.Xtea.Cipher.{pad_length, encrypt, decrypt}
use lightframe.Xtea.Trips.{decrypt-encrypt}
use lightframe.Xtea.Rounds.{Words, xtea-xtea}

abbrev key : List ℕ
key = 1 ∷ 2 ∷ 3 ∷ 4 ∷ []

two_rounds : xtea key 2 (0x4142_4344, 0x4546_4748) ≡ some (2232053468, 1637037099)
unfolding xtea encode_loop mix mix_low mix_high
two_rounds = refl

xtea-xtea_example :
    (w : ℕ × ℕ) × (xtea key 32 (0x4142_4344, 0x4546_4748) ≡ some w)
    × (xtea key (negate 32) w ≡ some (0x4142_4344, 0x4546_4748))
    × Words w
xtea-xtea_example =
    xtea-xtea key 32 (0x4142_4344, 0x4546_4748) (omega arith, omega arith) (omega arith)
      (omega arith)

abbrev hello : List ℕ
hello = b'h' ∷ b'e' ∷ b'l' ∷ b'l' ∷ b'o' ∷ []

abbrev secret : List ℕ
secret = replicate 16 7

decrypt-encrypt_example :
    (out : List ℕ) × (encrypt false secret
        (9 ∷ 8 ∷ 7 ∷ 6 ∷ [])
        (some hello)
        5
        (some (replicate 20 1))
        20
      ≡ some (16, some out))
    × (decrypt false secret (some out) 16 (some (replicate 6 2)) 6
        ≡ some (5, some (write (replicate 6 2) 0 (read hello 0 5))))
unfolding pad_length
decrypt-encrypt_example =
    decrypt-encrypt false secret (9 ∷ 8 ∷ 7 ∷ 6 ∷ []) hello (replicate 20 1) (replicate 6 2) 5 20 6
      (omega arith, (omega arith, (omega arith, (omega arith, (omega arith, tt)))))
      (omega arith, (omega arith, (omega arith, (omega arith, tt)))) (omega arith) (omega arith)
      (omega arith) (omega arith)

-- A length that is not one of whole blocks is refused.
ragged :
    decrypt false secret (some hello) 5 (some (replicate 6 2)) 6 ≡ some (0, some (replicate 6 2))
unfolding decrypt
ragged = refl
