-- ===== src/Needlecast/Rows.antt =====
-- The rows that a transfer reads and writes, and the run of its steps on rows that are there.
use dhf.Base.{
  ◌==◌, ◌≡◌, ◌≤◌, refl, some, Bool, true, false, Text, text_eq, text_eq_iff, List, arith, sym, ap,
  ap₂, ◌∙◌, not, Option-cases, inl, inr,
}
use dhf.Crypto.Primitives.{Noble}
use dhf.Chain.Hippocampus.{Node}
use dhf.Registry.{
  Stack, Sleeve, World, Reply, ok, error, thrown, amount, find_stack, find_sleeve, change_sleeve,
  update_sleeve, is_ok,
}
use dhf.Registry.Laws.{find_sleeve-id, find_sleeve-change_self, find_sleeve-change_other}
use dhf.Needlecast.{
  Calls, Transfer, write, set_alive, reset, shards_of, saga, needlecast, routing_cost,
}

-- A write whose call succeeds, to a row that is there.
write_lem :
    (k : Text) (f : Sleeve → Sleeve) (w : World) {s : Sleeve}
    → find_sleeve k w.sleeves ≡ some s
    → write true k f w
      ≡ some (record w { db = record w.db { sleeves = change_sleeve k f w.sleeves } })
unfolding write update_sleeve
write_lem k f w e = rw e refl

abbrev pub after_write : Text → (Sleeve → Sleeve) → World → World
after_write k f w = record w { db = record w.db { sleeves = change_sleeve k f w.sleeves } }

text_eq-false_sym : (a b : Text) → text_eq a b ≡ false → text_eq b a ≡ false
text_eq-false_sym a b e = ground (arith, text_eq_iff a b, text_eq_iff b a, e)

-- The rows that a transfer is about: two sleeves of one stack, and the stack.
pub record Route (w : World) : Type 0 where
  pub source : Sleeve
  pub target : Sleeve
  pub stack : Stack
  pub source_row : find_sleeve source.id w.sleeves ≡ some source
  pub target_row : find_sleeve target.id w.sleeves ≡ some target
  pub same_stack : text_eq source.stack_id target.stack_id ≡ true
  pub stack_row : find_stack source.stack_id w.stacks ≡ some stack
  pub enough : routing_cost ≤ amount source.tokens.routing
  pub apart : text_eq source.id target.id ≡ false

module _ (n : Noble) (node : Node) where
  needlecast-saga :
      (calls : Calls) (w : World) (r : Route w)
      → needlecast n node calls r.source.id r.target.id w
        ≡ saga n node calls r.source r.target r.stack w
  unfolding needlecast
  needlecast-saga calls w r =
      ground (arith, r.source_row, r.target_row, r.same_stack, r.stack_row, r.enough)

-- The rows of the sleeves after the freeze and the reset, and after the payment too.
abbrev pub frozen : Text → World → World
frozen from w = after_write from (set_alive false) w

-- The registry behind the first five steps.
pub reset_rows :
    (w : World) (r : Route w)
    → let w1 = frozen r.source.id w in
      let w3 = after_write r.target.id (reset r.stack r.target) w1 in
      (find_sleeve r.target.id w1.sleeves ≡ some r.target)
      × (find_sleeve r.source.id w3.sleeves ≡ some (set_alive false r.source))
      × (find_sleeve r.target.id w3.sleeves ≡ some (reset r.stack r.target r.target))
reset_rows w r =
    let back = text_eq-false_sym r.source.id r.target.id r.apart in
    let l1 = change_sleeve r.source.id (set_alive false) w.sleeves in
    let f1 = find_sleeve-change_self r.source.id (set_alive false) w.sleeves r.source_row refl in
    let t1 : find_sleeve r.target.id l1 ≡ some r.target =
      find_sleeve-change_other r.source.id r.target.id (set_alive false) w.sleeves r.apart
        (λ s e. e)
      ∙ r.target_row in
    (
      t1,
      find_sleeve-change_other r.target.id r.source.id (reset r.stack r.target) l1 back (λ s e. e)
          ∙ f1,
      find_sleeve-change_self r.target.id (reset r.stack r.target) l1 t1 refl,
    )

-- the requests that no step is taken for
abbrev pub refused : Reply Transfer → Bool
refused (ok t) = false
refused (error status why) = not (status == 500)
refused thrown = true

pub ok-refused : (r : Reply Transfer) → is_ok r ≡ true → refused r ≡ false
ok-refused (ok t) e = refl
ok-refused (error status why) e = cc
ok-refused thrown e = cc

module _ (n : Noble) (node : Node) where
  pub found-Route :
      (calls : Calls) (from to : Text) (w : World)
      → text_eq from to ≡ false
      → refused (needlecast n node calls from to w).0 ≡ false
      → (r : Route w) × (r.source.id ≡ from) × (r.target.id ≡ to)
  unfolding needlecast
  found-Route calls from to w apart e = elim (Option-cases (find_sleeve from w.sleeves)) [
    | inl absent ↦ absurd (ground (arith, absent, e))
    | inr (source, es) ↦ elim (Option-cases (find_sleeve to w.sleeves)) [
      | inl absent ↦ absurd (ground (arith, es, absent, e))
      | inr (target, et) ↦ elim (Option-cases (find_stack source.stack_id w.stacks)) [
        | inl absent ↦ absurd (ground (arith, es, et, absent, e))
        | inr (stack, ek) ↦
            let ef = find_sleeve-id from w.sleeves es in
            let eg = find_sleeve-id to w.sleeves et in
            (
              record {
                source = source;
                target = target;
                stack = stack;
                source_row = ap (λ i. find_sleeve i w.sleeves) ef ∙ es;
                target_row = ap (λ i. find_sleeve i w.sleeves) eg ∙ et;
                same_stack = ground (arith, es, et, ek, e);
                stack_row = ek;
                enough = ground (arith, es, et, ek, e);
                apart = rw (ef, eg) apart;
              },
              ef,
              eg,
            )
      ]
    ]
  ]

  pub ok-calls :
      (calls : Calls) (source target : Sleeve) (stack : Stack) (w : World)
      → is_ok (saga n node calls source target stack w).0 ≡ true
      → (calls.freeze ≡ true)
        × (calls.publish ≡ true)
        × (calls.reconstruct ≡ true)
        × (calls.settle ≡ true)
        × (calls.unfreeze ≡ true)
  unfolding saga write
  ok-calls calls source target stack w e = ground (arith, e)

-- A write that may succeed, to a row that is there.
pub write_up :
    (up : Bool) (k : Text) (f : Sleeve → Sleeve) (w : World) {s : Sleeve}
    → up ≡ true
    → find_sleeve k w.sleeves ≡ some s
    → write up k f w ≡ some (after_write k f w)
write_up up k f w h e = rw h (write_lem k f w e)

module _ (n : Noble) (node : Node) where
  pub ok-shards :
      (calls : Calls) (w : World) (r : Route w)
      → is_ok (saga n node calls r.source r.target r.stack w).0 ≡ true
      → (shards : List Text) × (shards_of n node r.stack ≡ some shards)
  unfolding saga
  ok-shards calls w r e = elim (Option-cases (shards_of n node r.stack)) [
    | inr found ↦ found
    | inl absent ↦
        let (c1, c2, c3, c4, c5) = ok-calls n node calls r.source r.target r.stack w e in
        let e1 = write_up calls.freeze r.source.id (set_alive false) w c1 r.source_row in
        absurd (ground (arith, absent, e1, e))
  ]

  pub started :
      (calls : Calls) (from to : Text) (w : World) (r : Route w)
      → r.source.id ≡ from
      → r.target.id ≡ to
      → needlecast n node calls from to w ≡ saga n node calls r.source r.target r.stack w
  started calls from to w r ef et =
      ap₂ (λ i j. needlecast n node calls i j w) (sym ef) (sym et)
      ∙ needlecast-saga n node calls w r
