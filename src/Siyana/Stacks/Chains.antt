-- ===== src/Siyana/Stacks/Chains.antt =====
-- What a memory that was written leaves in the node and in the registry.
use dhf.Base.{
  ℕ, ◌≡◌, Option, some, Bool, true, Text, Bytes, IsBytes, length, arith, Option-cases, inl, inr,
  refl, sym,
}
use dhf.Crypto.Primitives.{Noble, HashLaws, CipherLaws, decodable}
use dhf.Crypto.Cipher.{decrypt, epoch_key}
use dhf.Crypto.Cipher.RoundTrip.{decrypt-encrypt_same}
use dhf.Chain.Hippocampus.{Node, HippoPutInput, put}
use dhf.Registry.{Stack, World, ok, find_stack, change_stack, update_stack}
use dhf.Registry.Laws.{find_stack-id, find_stack-change_self}
use dhf.Siyana.Sleeves.{head_links}
use dhf.Siyana.Stacks.{remember, memory_input}

epoch_key-length :
    (n : Noble) (ciphers : CipherLaws n) (k : Text) (epoch : ℕ) (master : Option Text)
    → length (epoch_key n k epoch master) ≡ 32
unfolding epoch_key
epoch_key-length n ciphers k epoch master = ciphers.length-key _ _ _

epoch_key-IsBytes :
    (n : Noble) (ciphers : CipherLaws n) (k : Text) (epoch : ℕ) (master : Option Text)
    → IsBytes (epoch_key n k epoch master)
unfolding epoch_key
epoch_key-IsBytes n ciphers k epoch master = ciphers.key-IsBytes _ _ _

memory_links :
    (node : Node) (n : Noble) (master : Option Text) (stack : Stack) (content : Text) (pin : Bool)
    (iv : Bytes)
    → (memory_input node n master stack content pin iv).links ≡ head_links stack.episodic_head
unfolding memory_input
memory_links node n master stack content pin iv = refl

memory_payload :
    (node : Node) (n : Noble) (hashes : HashLaws n) (ciphers : CipherLaws n) (master : Option Text)
    (stack : Stack) (content : Text) (pin : Bool) (iv : Bytes)
    → decodable content ≡ true
    → length iv ≡ 12
    → IsBytes iv
    → decrypt n
        (memory_input node n master stack content pin iv).ciphertext
        (epoch_key n stack.id stack.epoch master)
      ≡ some content
unfolding memory_input
memory_payload node n hashes ciphers master stack content pin iv plain li vi =
    decrypt-encrypt_same n hashes ciphers content _ iv plain
      (epoch_key-length n ciphers stack.id stack.epoch master) li
      (epoch_key-IsBytes n ciphers stack.id stack.epoch master) vi

module _ (n : Noble) (hashes : HashLaws n) (ciphers : CipherLaws n) (node : Node)
    (master : Option Text) where
  -- Where `remember` answers with a cid, for a text of well-formed UTF-16 without a byte order mark in
  -- front and 12 random bytes: the memory node answered the storing of a node with that cid, whose
  -- payload decrypts, under the key of the stack's epoch, to the text, and which links to what was the
  -- stack's head. The stack's head is then that cid, and nothing else of the stack's row changes.
  pub remember-chains :
      (k content : Text) (pin : Bool) (iv : Bytes) (w : World) {cid : Text}
      → decodable content ≡ true
      → length iv ≡ 12
      → IsBytes iv
      → (remember node n master k content pin iv w).0 ≡ ok cid
      → (stack : Stack) × (input : HippoPutInput) × (find_stack k w.stacks ≡ some stack)
        × (put node input ≡ some cid)
        × (input.links ≡ head_links stack.episodic_head)
        × (decrypt n input.ciphertext (epoch_key n k stack.epoch master) ≡ some content)
        × (find_stack k (remember node n master k content pin iv w).1.stacks
            ≡ some (record stack { episodic_head = some cid }))
  unfolding remember update_stack
  remember-chains k content pin iv w {cid} plain li vi e =
      elim (Option-cases (find_stack k w.stacks)) [
        | inl absent ↦ absurd (ground (arith, absent, e))
        | inr (stack, es) ↦
            let input = memory_input node n master stack content pin iv in
            let ek = find_stack-id k w.stacks es in
            let stored : put node input ≡ some cid = ground (arith, es, e) in
            let head : (remember node n master k content pin iv w).1.stacks
                ≡ change_stack k (λ row. record row { episodic_head = some cid }) w.stacks =
              ground (arith, es, e, ek) in
            (
              stack,
              input,
              es,
              stored,
              memory_links node n master stack content pin iv,
              rw (sym ek)
                  (memory_payload node n hashes ciphers master stack content pin iv plain li vi),
              rw head (find_stack-change_self k _ w.stacks es ek),
            )
      ]
