-- ===== src/Events/Identifiers.antt =====
-- The identifiers that the services make match the patterns of the schemas.
use dhf.Base.{
  ℕ, zero, suc, ◌≡◌, refl, ap, ◌∙◌, ◌<◌, append_assoc, ◌>>=◌, Option, none, some, Bool, true, false,
  [], ◌∷◌, ◌++◌, Text, codes, leb, length, length-append, take, is_empty, arith,
}
use dhf.Base.Decimal.{is_digit, to_decimal, to_decimal-IsDigits, to_decimal_is_not_empty}
use dhf.Crypto.{Content, sha256hex}
use dhf.Crypto.Primitives.{Noble, HashLaws}
use dhf.Crypto.Cid.{HexLaws, cid, is_hex_digit, each, behind, scheme}
use dhf.Crypto.Cid.RoundTrip.{behind-append, hash_facts, each-All, take-append, drop-append}
use dhf.Events.Patterns.{
  is_lower, past, some_of, past_id, is_id, is_cid, is_hash_suffix, is_epoch_suffix,
}

past-append :
    (test : ℕ → Bool) (s t : Text) (c : ℕ)
    → each test s ≡ true
    → test c ≡ false
    → past test (s ++ c ∷ t) ≡ c ∷ t
unfolding past each
past-append test [] t c h k = rw k refl
past-append test (d ∷ s) t c h k = ground (arith, past-append test s t c, h, k)

past-each : (test : ℕ → Bool) (s : Text) → each test s ≡ true → past test s ≡ []
unfolding past each
past-each test [] h = refl
past-each test (d ∷ s) h = ground (arith, past-each test s, h)

some_of-append :
    (test : ℕ → Bool) (s t : Text) (c : ℕ)
    → is_empty s ≡ false
    → each test s ≡ true
    → test c ≡ false
    → some_of test (s ++ c ∷ t) ≡ some (c ∷ t)
unfolding some_of each
some_of-append test [] t c e h k = absurd (ground (arith, e))
some_of-append test (d ∷ s) t c e h k = ground (arith, past-append test s t c, h, k)

some_of-each :
    (test : ℕ → Bool) (s : Text)
    → is_empty s ≡ false
    → each test s ≡ true
    → some_of test s ≡ some []
unfolding some_of each
some_of-each test [] e h = absurd (ground (arith, e))
some_of-each test (d ∷ s) e h = ground (arith, past-each test s, h)

bind-to :
    (o : Option Text) (f : Text → Option Text) {a b : Text}
    → o ≡ some a
    → f a ≡ some b
    → (o >>= f) ≡ some b
bind-to o f h k = rw h k

colon_is_no_letter : is_lower b':' ≡ false
unfolding is_lower
colon_is_no_letter = refl

colon_is_no_digit : is_digit b':' ≡ false
unfolding is_digit
colon_is_no_digit = refl

past_id-append :
    (prefix a b c : Text)
    → is_empty a ≡ false
    → each is_lower a ≡ true
    → is_empty b ≡ false
    → each is_digit b ≡ true
    → is_empty c ≡ false
    → each is_hex_digit c ≡ true
    → past_id prefix (prefix ++ (a ++ (codes ":" ++ (b ++ (codes ":" ++ c))))) ≡ some []
unfolding past_id
past_id-append prefix a b c ea ha eb hb ec hc =
    let e1 = behind-append prefix (a ++ (codes ":" ++ (b ++ (codes ":" ++ c)))) in
    let e2 =
      bind-to (behind prefix _) (some_of is_lower) e1
        (some_of-append is_lower a (b ++ (codes ":" ++ c)) b':' ea ha colon_is_no_letter) in
    let e3 =
      bind-to _ (behind (codes ":")) e2 (behind-append (codes ":") (b ++ (codes ":" ++ c))) in
    let e4 =
      bind-to _ (some_of is_digit) e3 (some_of-append is_digit b c b':' eb hb colon_is_no_digit) in
    let e5 = bind-to _ (behind (codes ":")) e4 (behind-append (codes ":") c) in
    bind-to _ (some_of is_hex_digit) e5 (some_of-each is_hex_digit c ec hc)

-- A prefix, a run of letters, a run of decimal digits and one of hexadecimal ones.
pub is_id-append :
    (prefix a b c : Text)
    → is_empty a ≡ false
    → each is_lower a ≡ true
    → is_empty b ≡ false
    → each is_digit b ≡ true
    → is_empty c ≡ false
    → each is_hex_digit c ≡ true
    → is_id prefix (prefix ++ (a ++ (codes ":" ++ (b ++ (codes ":" ++ c))))) ≡ true
unfolding is_id
is_id-append prefix a b c ea ha eb hb ec hc =
    rw (is_id, past_id-append prefix a b c ea ha eb hb ec hc) refl

each-take : (test : ℕ → Bool) (k : ℕ) (s : Text) → each test s ≡ true → each test (take k s) ≡ true
unfolding each
each-take test zero s h = refl
each-take test (suc k) [] h = refl
each-take test (suc k) (c ∷ s) h = ground (arith, each-take test k s, h)

taken_is_not_empty : (k : ℕ) (s : Text) → 0 < k → 0 < length s → is_empty (take k s) ≡ false
taken_is_not_empty zero s h l = absurd (omega arith)
taken_is_not_empty (suc k) [] h l = absurd (omega arith)
taken_is_not_empty (suc k) (c ∷ s) h l = refl

hash_suffix :
    (h digits : Text)
    → length h ≡ 64
    → each is_hex_digit h ≡ true
    → is_empty digits ≡ false
    → each is_digit digits ≡ true
    → is_hash_suffix (h ++ (codes "@" ++ digits)) ≡ true
unfolding is_hash_suffix is_epoch_suffix
hash_suffix h digits size hex e d =
    let tail = codes "@" ++ digits in
    let long : leb 64 (length (h ++ tail)) ≡ true =
      rw (length-append h tail, size) (ground arith) in
    rw (long, take-append 64 h tail size, drop-append 64 h tail size, hex, e, d) refl

-- What `cid` writes for any content and epoch matches the schema Cid.
cid-IsCid :
    (n : Noble) (hashes : HashLaws n) (hexes : HexLaws n) (content : Content) (epoch : ℕ)
    → is_cid (cid n content epoch) ≡ true
unfolding is_cid cid
cid-IsCid n hashes hexes content epoch =
    let (size, hex) = hash_facts n hashes hexes content in
    ap (λ o. elim o as (λ _. Bool) [ none ↦ false | some rest ↦ is_hash_suffix rest ])
      (behind-append scheme _)
    ∙ hash_suffix (sha256hex n content) (to_decimal epoch) size hex (to_decimal_is_not_empty epoch)
        (each-All is_digit _ (to_decimal-IsDigits epoch))

-- A run of hexadecimal digits from the beginning of a hash.
short_hash :
    (n : Noble) (hashes : HashLaws n) (hexes : HexLaws n) (content : Content) (k : ℕ)
    → 0 < k
    → (is_empty (take k (sha256hex n content)) ≡ false)
      × (each is_hex_digit (take k (sha256hex n content)) ≡ true)
short_hash n hashes hexes content k h =
    let (size, hex) = hash_facts n hashes hexes content in
    (
      taken_is_not_empty k (sha256hex n content) h (omega (arith, size)),
      each-take is_hex_digit k (sha256hex n content) hex,
    )

-- The form in which the services write an identifier.
pub written_id :
    (n : Noble) (hashes : HashLaws n) (hexes : HexLaws n) (prefix kind : Text) (number : ℕ)
    (content : Content) (k : ℕ)
    → is_empty kind ≡ false
    → each is_lower kind ≡ true
    → 0 < k
    → is_id prefix (
        prefix
        ++ kind
        ++ codes ":"
        ++ to_decimal number
        ++ codes ":"
        ++ take k (sha256hex n content))
      ≡ true
written_id n hashes hexes prefix kind number content k e h positive =
    let (full, hex) = short_hash n hashes hexes content k positive in
    let hash = take k (sha256hex n content) in
    let digits = to_decimal number in
    let shape : prefix ++ kind ++ codes ":" ++ digits ++ codes ":" ++ hash
        ≡ prefix ++ (kind ++ (codes ":" ++ (digits ++ (codes ":" ++ hash)))) =
      simp append_assoc in
    rw shape (
      is_id-append prefix kind digits hash e h (to_decimal_is_not_empty number)
        (each-All is_digit _ (to_decimal-IsDigits number)) full hex)
