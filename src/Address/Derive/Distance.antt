-- ===== src/Address/Derive/Distance.antt =====
-- The distance of two addresses at a resolution.
use Prim.Native.Nat.{bit_xor}
use dhf.Base.{
  ℕ, zero, suc, ◌+◌, ◌*◌, ◌≤◌, ◌<◌, ◌≡◌, refl, ap, ap₂, some, some_inj, ◌-◌, ◌∙◌, ◌↔◌, Bool, true,
  false, ◌&&◌, [], ◌∷◌, Bytes, IsBytes, length, leb, ltb, ◌==◌, if◌then◌else◌, arith, take,
}
use dhf.Address.{SemanticAddress, prefix}
use dhf.Address.Hex.{passes, passes-at}
use dhf.Address.Derive.{popcount, distance_loop, prefix_distance}

-- What the program needs of two bytes: the bits in which they differ are as many both ways round,
-- eight at most, and none just where the bytes are equal.
row : ℕ → ℕ → Bool
row x y =
    let d = popcount (bit_xor x y) in
    d == popcount (bit_xor y x) && leb d 8 && (if x == y then d == 0 else ltb 0 d)

table : passes (λ x. passes (row x) 256) 256 ≡ true
unfolding row passes popcount
table = refl

row_facts :
    (x y : ℕ)
    → x < 256
    → y < 256
    → (popcount (bit_xor x y) ≡ popcount (bit_xor y x))
      × (popcount (bit_xor x y) ≤ 8)
      × (x ≡ y → popcount (bit_xor x y) ≡ 0)
      × (popcount (bit_xor x y) ≡ 0 → x ≡ y)
row_facts x y p q =
    let whole = passes-at (λ (k : ℕ). passes (row k) 256) p table in
    let e = passes-at (row x) q whole in
    unfold row in (ground (arith, e), ground (arith, e), ground (arith, e), ground (arith, e))

distance_loop_comm :
    (k : ℕ) (a b : Bytes) (d : ℕ)
    → IsBytes a
    → IsBytes b
    → distance_loop k a b d ≡ distance_loop k b a d
unfolding distance_loop
distance_loop_comm zero a b d va vb = refl
distance_loop_comm (suc k) [] [] d va vb = refl
distance_loop_comm (suc k) [] (y ∷ b) d va vb = refl
distance_loop_comm (suc k) (x ∷ a) [] d va vb = refl
distance_loop_comm (suc k) (x ∷ a) (y ∷ b) d va vb =
    rw (row_facts x y va.0 vb.0).0 (distance_loop_comm k a b (d + popcount (bit_xor y x)) va.1 vb.1)

distance_loop_bounds :
    (k : ℕ) (a b : Bytes) (d : ℕ)
    → IsBytes a
    → IsBytes b
    → (d ≤ distance_loop k a b d) × (distance_loop k a b d ≤ d + k * 8)
unfolding distance_loop
distance_loop_bounds zero a b d va vb = (omega arith, omega arith)
distance_loop_bounds (suc k) [] b d va vb = (omega arith, omega arith)
distance_loop_bounds (suc k) (x ∷ a) [] d va vb = (omega arith, omega arith)
distance_loop_bounds (suc k) (x ∷ a) (y ∷ b) d va vb =
    let (low, high) = distance_loop_bounds k a b (d + popcount (bit_xor x y)) va.1 vb.1 in
    let (_, eight, _, _) = row_facts x y va.0 vb.0 in (omega arith, omega arith)

distance_loop_eq :
    (k : ℕ) (a b : Bytes) (d : ℕ)
    → IsBytes a
    → IsBytes b
    → k ≤ length a
    → k ≤ length b
    → (distance_loop k a b d ≡ d → take k a ≡ take k b)
      × (take k a ≡ take k b → distance_loop k a b d ≡ d)
unfolding distance_loop
distance_loop_eq zero a b d va vb la lb = (λ _. refl, λ _. refl)
distance_loop_eq (suc k) [] b d va vb la lb = absurd (omega arith)
distance_loop_eq (suc k) (x ∷ a) [] d va vb la lb = absurd (omega arith)
distance_loop_eq (suc k) (x ∷ a) (y ∷ b) d va vb la lb =
    let d' = d + popcount (bit_xor x y) in
    let (low, _) = distance_loop_bounds k a b d' va.1 vb.1 in
    let (_, _, same, none) = row_facts x y va.0 vb.0 in
    let (down, up) = distance_loop_eq k a b d' va.1 vb.1 (omega arith) (omega arith) in
    (
      λ e. ap₂ ◌∷◌ (none (omega arith)) (down (omega arith)),
      λ e.
          let head : x ≡ y = cc in
          let tail : take k a ≡ take k b = cc in let zero_bits = same head in up tail ∙ omega arith,
    )

prefix_lem :
    (a : SemanticAddress) (d : ℕ) → 0 < d → d ≤ 5 → prefix a d ≡ some (take (d * 4) a.bytes)
unfolding prefix
prefix_lem a d p q =
    let low : ltb d 1 ≡ false = ground arith in
    let high : ltb 5 d ≡ false = ground arith in
    let all : d * 4 - 0 ≡ d * 4 = omega arith in rw (low, high, all)

prefix_distance-loop :
    (a b : SemanticAddress) (d : ℕ)
    → d ≤ 5
    → prefix_distance a b d ≡ distance_loop (d * 4) a.bytes b.bytes 0
unfolding prefix_distance
prefix_distance-loop a b d h =
    let end : (if ltb (d * 4) 20 then d * 4 else 20) ≡ d * 4 = ground arith in rw end

prefix_agree :
    (a b : SemanticAddress) (d : ℕ)
    → d ≤ 5
    → (prefix a d ≡ prefix b d) ↔ (take (d * 4) a.bytes ≡ take (d * 4) b.bytes)
prefix_agree a b zero h = (λ _. refl, λ _. unfold prefix in refl)
prefix_agree a b (suc d) h =
    rw (prefix_lem a (suc d) (omega arith) h, prefix_lem b (suc d) (omega arith) h)
      (some_inj, ap some)

-- For addresses of bytes at a depth of at most five, the distance is the same both ways round, is at
-- most 32 for each level, and is zero just where the prefixes of four bytes a level agree.
prefix_distance_lem :
    (a b : SemanticAddress) (depth : ℕ)
    → IsBytes a.bytes
    → IsBytes b.bytes
    → length a.bytes ≡ 32
    → length b.bytes ≡ 32
    → depth ≤ 5
    → (prefix_distance a b depth ≡ prefix_distance b a depth)
      × (prefix_distance a b depth ≤ depth * 32)
      × ((prefix_distance a b depth ≡ 0) ↔ (prefix a depth ≡ prefix b depth))
prefix_distance_lem a b depth va vb la lb h =
    let (_, high) = distance_loop_bounds (depth * 4) a.bytes b.bytes 0 va vb in
    let (down, up) =
      distance_loop_eq (depth * 4) a.bytes b.bytes 0 va vb (omega arith) (omega arith) in
    let (out, back) = prefix_agree a b depth h in
    rw (prefix_distance-loop a b depth h, prefix_distance-loop b a depth h)
      (
        distance_loop_comm (depth * 4) a.bytes b.bytes 0 va vb,
        omega arith,
        (λ e. back (down e), λ e. up (out e)),
      )
