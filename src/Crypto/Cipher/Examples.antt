-- ===== src/Crypto/Cipher/Examples.antt =====
-- Tests of the cipher and of signatures.
use dhf.Base.{◌≡◌, refl, some, none, Bytes, codes, arith, replicate}
use dhf.Crypto.Sample.{sample, sample-HashLaws, sample-CipherLaws}
use dhf.Crypto.Primitives.{decodable}
use dhf.Crypto.Merkle.{text}
use dhf.Crypto.Cipher.{EncPayload, encrypt, decrypt}
use dhf.Crypto.Cipher.RoundTrip.{decrypt-encrypt}

abbrev sevens : Bytes
sevens = replicate 32 7

abbrev sealed : EncPayload
sealed = encrypt sample (text (codes "rain")) sevens (replicate 12 9)

decrypt-encrypt_example :
    (decrypt sample sealed sevens ≡ some (codes "rain"))
    × (decrypt sample (record sealed { v = 2 }) sevens ≡ none)
unfolding decodable
decrypt-encrypt_example =
    decrypt-encrypt sample sample-HashLaws sample-CipherLaws (codes "rain") sevens sevens
      (replicate 12 9) 2 refl refl refl (omega arith) (omega arith) (omega arith)
