-- ===== src/Siyana/Sleeves/Perceive.antt =====
-- What a perception does to the registry, alone and beside another one.
use dhf.Base.{
  ◌≡◌, ◌≤◌, ◌+◌, ◌-◌, refl, Option, none, some, Bool, true, false, Text, Bytes, text_eq, arith,
}
use dhf.Crypto.Primitives.{Noble}
use dhf.Crypto.Merkle.{text as leaf_text}
use dhf.Crypto.Cipher.{encrypt, epoch_key}
use dhf.Chain.Hippocampus.{Node, HippoPutInput, NodeKind}
use dhf.Registry.{
  Stack, Sleeve, World, ok, amount, find_stack, find_sleeve, change_stack, change_sleeve,
  update_sleeve, update_stack, publish_or_drop, is_ok,
}
use dhf.Registry.Laws.{
  find_sleeve-id, find_stack-id, find_sleeve-change_self, find_sleeve-change_other,
  find_stack-change_self,
}
use dhf.Siyana.Sleeves.{Perceived, head_links, perceive_start, perceive_commit, perceive}

-- the row after a perception that read `old`
abbrev pub charged : Sleeve → Sleeve → Sleeve
charged old row = record row {
  drift = row.drift + 1;
  tokens = record old.tokens { compute = some (amount old.tokens.compute - 1) };
}

abbrev pub headed : Text → Stack → Stack
headed cid row = record row { episodic_head = some cid }

module _ (n : Noble) (node : Node) (master : Option Text) where
  perceive_start-reads :
      (k input : Text) (iv : Bytes) (w : World) {p : Perceived}
      → perceive_start n node master k input iv w ≡ ok p
      → (find_sleeve k w.sleeves ≡ some p.sleeve)
        × (find_stack p.sleeve.stack_id w.stacks ≡ some p.stack)
        × (2 ≤ amount p.sleeve.tokens.compute)
  unfolding perceive_start
  perceive_start-reads k input iv w {p} e = ground arith

  -- the node of a thought, as the memory node is asked to store it
  abbrev pub thought_node : Stack → Text → Bytes → HippoPutInput
  thought_node stack thought iv = record {
    stack_id = stack.id;
    epoch = stack.epoch;
    ciphertext = encrypt n (leaf_text thought) (epoch_key n stack.id stack.epoch master) iv;
    links = head_links stack.episodic_head;
    kind = NodeKind.episodic;
    pinned = none;
  }

perceive_commit_lem :
    (n : Noble) (p : Perceived) (up : Bool) (w : World) {s : Sleeve} {t : Stack}
    → find_sleeve p.sleeve.id w.sleeves ≡ some s
    → find_stack p.stack.id w.stacks ≡ some t
    → ((perceive_commit n p true up w).0 ≡ ok (p.cid, p.thought))
      × ((perceive_commit n p true up w).1.sleeves
          ≡ change_sleeve p.sleeve.id (charged p.sleeve) w.sleeves)
      × ((perceive_commit n p true up w).1.stacks ≡ change_stack p.stack.id (headed p.cid) w.stacks)
unfolding perceive_commit update_stack update_sleeve publish_or_drop
perceive_commit_lem n p true w es et = rw (et, es) (refl, refl, refl)
perceive_commit_lem n p false w es et = rw (et, es) (refl, refl, refl)

-- The rows after the commit of a perception that read the rows of the same keys.
committed_rows :
    (n : Noble) (k : Text) (p : Perceived) (up : Bool) (w : World) {s : Sleeve} {t : Stack}
    → find_sleeve k w.sleeves ≡ some s
    → p.sleeve.id ≡ k
    → find_stack p.sleeve.stack_id w.stacks ≡ some t
    → p.stack.id ≡ p.sleeve.stack_id
    → ((perceive_commit n p true up w).0 ≡ ok (p.cid, p.thought))
      × (find_sleeve k (perceive_commit n p true up w).1.sleeves ≡ some (charged p.sleeve s))
      × (find_stack p.sleeve.stack_id (perceive_commit n p true up w).1.stacks
          ≡ some (headed p.cid t))
      × ((j : Text)
          → text_eq k j ≡ false
          → find_sleeve j (perceive_commit n p true up w).1.sleeves ≡ find_sleeve j w.sleeves)
committed_rows n k p up w {s} {t} es eid et etid =
    let es' : find_sleeve p.sleeve.id w.sleeves ≡ some s = rw eid es in
    let et' : find_stack p.stack.id w.stacks ≡ some t = rw etid et in
    let (e0, e1, e2) = perceive_commit_lem n p up w es' et' in
    (
      e0,
      rw (e1, eid)
          (find_sleeve-change_self k (charged p.sleeve) w.sleeves es
            (find_sleeve-id k w.sleeves es)),
      rw (e2, etid)
          (find_stack-change_self p.sleeve.stack_id (headed p.cid) w.stacks et
            (find_stack-id p.sleeve.stack_id w.stacks et)),
      λ j ne.
          rw (e1, eid)
            (find_sleeve-change_other k j (charged p.sleeve) w.sleeves ne (λ row same. same)),
    )

module _ (n : Noble) (node : Node) (master : Option Text) where
  -- A perception that has read the rows and is committed to a registry where its sleeve and its stack
  -- still are.
  start_committed :
      (k input : Text) (iv : Bytes) (w0 : World) {p : Perceived}
      → perceive_start n node master k input iv w0 ≡ ok p
      → (p.sleeve.id ≡ k) × (p.stack.id ≡ p.sleeve.stack_id)
  start_committed k input iv w0 e =
      let (es, et, enough) = perceive_start-reads n node master k input iv w0 e in
      (find_sleeve-id k w0.sleeves es, find_stack-id _ w0.stacks et)

module _ (n : Noble) (node : Node) (master : Option Text) where
  -- A perception that is answered with an error, or throws, leaves the registry and the events as
  -- they were, whether the node stored the thought or not and whether the transaction went through
  -- or not.
  perceive-keeps :
      (k input : Text) (iv : Bytes) (committed up : Bool) (w : World)
      → is_ok (perceive n node master k input iv committed up w).0 ≡ false
      → (perceive n node master k input iv committed up w).1 ≡ w
  unfolding perceive perceive_commit
  perceive-keeps k input iv committed up w h = ground arith

  -- Two perceptions of one sleeve that both read before either commits, and whose transactions both
  -- go through: both are answered with a result and the drift counts both, but only half a compute
  -- token is gone, and the stack's head is the second one's node.
  pub perceive-perceive_lost :
      (k a b : Text) (iv jv : Bytes) (up up' : Bool) (w : World) {p q : Perceived}
      → perceive_start n node master k a iv w ≡ ok p
      → perceive_start n node master k b jv w ≡ ok q
      → let (r, w1) = perceive_commit n p true up w in
        let (r', w2) = perceive_commit n q true up' w1 in
        (r ≡ ok (p.cid, p.thought))
        × (r' ≡ ok (q.cid, q.thought))
        × (find_sleeve k w2.sleeves
            ≡ some (record p.sleeve {
              drift = p.sleeve.drift + 2;
              tokens = record p.sleeve.tokens {
                compute = some (amount p.sleeve.tokens.compute - 1);
              };
            }))
        × (find_stack p.sleeve.stack_id w2.stacks ≡ some (headed q.cid p.stack))
  perceive-perceive_lost k a b iv jv up up' w {p} {q} ep eq =
      let (es, et, enough) = perceive_start-reads n node master k a iv w ep in
      let (ek, et') = start_committed n node master k a iv w ep in
      let (fs, ft, _) = perceive_start-reads n node master k b jv w eq in
      let (fk, ft') = start_committed n node master k b jv w eq in
      let same : q.sleeve ≡ p.sleeve = cc in
      let same' : q.stack ≡ p.stack = cc in
      let (r1, s1, t1, _) = committed_rows n k p up w es ek et et' in
      let (r2, s2, t2, _) =
        committed_rows n k q up' (perceive_commit n p true up w).1 {t = headed p.cid p.stack} s1 fk
          (rw same t1) ft' in
      (r1, r2, ground (arith, s2, same), ground (arith, t2, same, same'))
