-- ===== src/Crypto/Cid/RoundTrip.antt =====
-- Reading an identifier back.
use dhf.Base.{
  ℕ, zero, suc, ◌≡◌, refl, sym, ap, ◌∙◌, some, some_inj, Bool, true, false, [], ◌∷◌, ◌++◌, Text,
  All, length, length-append, take, drop, is_empty, leb, arith, ◌>>=◌, codes,
}
use dhf.Base.Decimal.{
  to_decimal, from_decimal, is_digit, from_decimal-to_decimal, to_decimal-IsDigits,
  to_decimal_is_not_empty,
}
use dhf.Crypto.{Content, content_bytes, sha256, sha256hex}
use dhf.Crypto.Primitives.{Noble, HashLaws}
use dhf.Crypto.Cid.{
  scheme, cid, is_hex_digit, each, behind, parse_epoch, parse_rest, parse_cid, HexLaws,
}

pub behind-append : (p t : Text) → behind p (p ++ t) ≡ some t
unfolding behind
behind-append [] t = refl
behind-append (c ∷ p) t = ground (arith, behind-append p t)

pub each-All : (test : ℕ → Bool) (t : Text) → All (λ c. test c ≡ true) t → each test t ≡ true
unfolding each
each-All test [] h = refl
each-All test (c ∷ t) h = ground (arith, each-All test t h.1)

pub take-append : (k : ℕ) (s t : Text) → length s ≡ k → take k (s ++ t) ≡ s
take-append zero [] t h = refl
take-append zero (c ∷ s) t h = absurd (omega arith)
take-append (suc k) [] t h = absurd (omega arith)
take-append (suc k) (c ∷ s) t h = ap (◌∷◌ c) (take-append k s t (omega arith))

pub drop-append : (k : ℕ) (s t : Text) → length s ≡ k → drop k (s ++ t) ≡ t
drop-append zero [] t h = refl
drop-append zero (c ∷ s) t h = absurd (omega arith)
drop-append (suc k) [] t h = absurd (omega arith)
drop-append (suc k) (c ∷ s) t h = drop-append k s t (omega arith)

parse_epoch-at :
    (ds : Text)
    → is_empty ds ≡ false
    → each is_digit ds ≡ true
    → parse_epoch (codes "@" ++ ds) ≡ some (from_decimal 0 ds)
unfolding parse_epoch
parse_epoch-at ds e h = ground arith

-- The hash of any content: 64 digits.
pub hash_facts :
    (n : Noble) (hashes : HashLaws n) (hexes : HexLaws n) (content : Content)
    → (length (sha256hex n content) ≡ 64) × (each is_hex_digit (sha256hex n content) ≡ true)
unfolding sha256hex sha256
hash_facts n hashes hexes content =
    let valid = hashes.digest-IsBytes (content_bytes n content) in
    (
      omega (
        arith,
        hexes.length-bytes_to_hex _ valid,
        hashes.length-digest (content_bytes n content),
      ),
      each-All is_hex_digit _ (hexes.bytes_to_hex-digits _ valid),
    )

parse_rest-at :
    (h tail : Text) (epoch : ℕ)
    → length h ≡ 64
    → each is_hex_digit h ≡ true
    → parse_epoch tail ≡ some epoch
    → parse_rest (h ++ tail) ≡ some (record { hash = h; epoch = epoch })
unfolding parse_rest
parse_rest-at h tail epoch size hex read =
    let long : leb 64 (length (h ++ tail)) ≡ true =
      rw (length-append h tail, size) (ground arith) in
    rw (long, take-append 64 h tail size, drop-append 64 h tail size, hex, read) refl

-- What `cid` writes for a content and an epoch, `parseCid` reads back as the content's hash and the
-- epoch.
pub parse_cid-cid :
    (n : Noble) (hashes : HashLaws n) (hexes : HexLaws n) (content : Content) (epoch : ℕ)
    → parse_cid (cid n content epoch) ≡ some (record { hash = sha256hex n content; epoch = epoch })
unfolding parse_cid cid
parse_cid-cid n hashes hexes content epoch =
    let (size, hex) = hash_facts n hashes hexes content in
    let read =
      parse_epoch-at (to_decimal epoch) (to_decimal_is_not_empty epoch)
        (each-All is_digit _ (to_decimal-IsDigits epoch))
      ∙ ap some (from_decimal-to_decimal epoch) in
    ap (λ o. o >>= parse_rest) (behind-append scheme _)
    ∙ parse_rest-at (sha256hex n content) (codes "@" ++ to_decimal epoch) epoch size hex read

-- Two contents with one identifier have one hash and one epoch.
pub cid_inj :
    (n : Noble) (hashes : HashLaws n) (hexes : HexLaws n) (content other : Content)
    (epoch later : ℕ)
    → cid n content epoch ≡ cid n other later
    → (sha256hex n content ≡ sha256hex n other) × (epoch ≡ later)
cid_inj n hashes hexes content other epoch later e =
    let parsed = some_inj (
      sym (parse_cid-cid n hashes hexes content epoch)
      ∙ ap parse_cid e
      ∙ parse_cid-cid n hashes hexes other later) in
    (ap (λ c. c.hash) parsed, ap (λ c. c.epoch) parsed)
