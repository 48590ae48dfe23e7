-- ===== src/Events/Published/Handlers.antt =====
-- The handlers of services/siyana-api that write identifiers keep the registry typed.
use dhf.Base.{
  ℕ, ◌+◌, ◌≡◌, refl, sym, ◌&&◌, ◌||◌, Option, some, Bool, true, false, ◌++◌, Text, codes, is_empty,
  arith, inl, inr, Bool-cases, Option-cases, ltb, length, take, some_inj,
}
use dhf.Base.Decimal.{to_decimal}
use dhf.Crypto.{text, sha256hex}
use dhf.Crypto.Primitives.{Noble, HashLaws}
use dhf.Crypto.Cipher.{IdentityKeypair}
use dhf.Crypto.Cid.{HexLaws, each}
use dhf.Registry.{
  EmbodimentType, Db, Sleeve, World, find_stack, find_sleeve, update_sleeve, change_sleeve,
}
use dhf.Siyana.{embodiment_name}
use dhf.Siyana.Sleeves.{spawn, decommission, count_sleeves}
use dhf.Siyana.Stacks.{create_stack}
use dhf.Registry.Profiles.{accepts_profile, accepts_curve}
use dhf.Events.Patterns.{is_stack_id, is_sleeve_id, is_lower}
use dhf.Events.Identifiers.{written_id}
use dhf.Events.Published.{
  IsTyped, StackAccepted, SleeveAccepted, All-snoc, publish_or_drop-IsTyped, found-typed,
  embodiment_name-is_lower, publish_or_drop-PublishesOne, change_sleeve-typed, created-accepted,
  both, spawned-accepted,
}

module _ (n : Noble) (hashes : HashLaws n) (hexes : HexLaws n) where
  -- Creating a stack of a kind that is lower-case letters (the handler takes human or ai) keeps the
  -- identifiers of the registry's rows, and the profiles and curves of its stacks, within the schemas,
  -- whatever the reply; where it succeeds it publishes, if the bus takes it, one event, with the new
  -- stack's identifier, name, kind, token and public key, which the union of the events accepts; where
  -- it fails it publishes nothing.
  pub create_stack-IsTyped :
      (name kind : Text) (kp : IdentityKeypair) (now : ℕ) (up : Bool) (w : World)
      → is_empty kind ≡ false
      → each is_lower kind ≡ true
      → IsTyped w
      → StackAccepted kp now up w.events
          (create_stack n name kind kp now up w).0
          (create_stack n name kind kp now up w).1.events
        × IsTyped (create_stack n name kind kp now up w).1
  unfolding create_stack is_stack_id StackAccepted accepts_profile accepts_curve
  create_stack-IsTyped name kind kp now up w e h v =
      let typed =
        written_id n hashes hexes (codes "stack:") kind (length w.stacks + 1)
          (text (name ++ to_decimal now)) 12 e h (omega arith) in
      elim (Bool-cases (is_empty name || ltb 64 (length name))) [
        | inl bad ↦ rw bad (refl, v)
        | inr good ↦
            rw good
              (elim (Option-cases (
                find_stack
                  (codes "stack:"
                    ++ kind
                    ++ codes ":"
                    ++ to_decimal (length w.stacks + 1)
                    ++ codes ":"
                    ++ take 12 (sha256hex n (text (name ++ to_decimal now))))
                  w.stacks)) [
                    | inl free ↦ rw free (
                      publish_or_drop-PublishesOne up _ _
                          (created-accepted _ name kind kp.pub_hex _ now typed),
                      publish_or_drop-IsTyped up _ _ (record {
                        stacks_typed =
                            All-snoc (λ s. is_stack_id s.id ≡ true) w.stacks _ v.stacks_typed typed;
                        profiles_typed =
                            All-snoc
                              (λ s. (accepts_profile s.cpv && accepts_curve s.binding) ≡ true)
                              w.stacks _ v.profiles_typed refl;
                        sleeves_typed = v.sleeves_typed;
                      }),
                    )
                    | inr (old, taken) ↦ rw taken (refl, v)
                  ])
      ]

  -- Spawning a sleeve keeps the identifiers of the registry's rows, and the profiles and curves of its
  -- stacks, within the schemas, whatever the reply; where it succeeds it publishes, if the bus takes it, one
  -- event, with the new sleeve's identifier, stack and kind of body, which the union of the events
  -- accepts; where it fails it publishes nothing.
  pub spawn-IsTyped :
      (stack_id : Text) (kind : EmbodimentType) (hostname : Option Text) (now : ℕ) (up : Bool)
      (w : World)
      → IsTyped w
      → SleeveAccepted now up w.events
          (spawn n stack_id kind hostname now up w).0
          (spawn n stack_id kind hostname now up w).1.events
        × IsTyped (spawn n stack_id kind hostname now up w).1
  unfolding spawn is_sleeve_id SleeveAccepted
  spawn-IsTyped stack_id kind hostname now up w v =
      elim (Option-cases (find_stack stack_id w.stacks)) [
        | inl none_there ↦ rw (spawn, SleeveAccepted, none_there) (refl, v)
        | inr (stack, there) ↦
            let (full, lower) = embodiment_name-is_lower kind in
            let owned = found-typed stack_id w.stacks stack there v.stacks_typed in
            let typed =
              written_id n hashes hexes (codes "sleeve:") (embodiment_name kind)
                (count_sleeves stack.id w.sleeves + 1) (text (stack.id ++ to_decimal now)) 8 full
                lower (omega arith) in
            rw (spawn, SleeveAccepted, there)
              (elim (Option-cases (
                find_sleeve
                  (codes "sleeve:"
                    ++ embodiment_name kind
                    ++ codes ":"
                    ++ to_decimal (count_sleeves stack.id w.sleeves + 1)
                    ++ codes ":"
                    ++ take 8 (sha256hex n (text (stack.id ++ to_decimal now))))
                  w.sleeves)) [
                    | inl free ↦
                        rw (spawn, SleeveAccepted, free)
                          (
                            publish_or_drop-PublishesOne up _ _
                                (spawned-accepted _ _ kind now typed owned),
                            publish_or_drop-IsTyped up _ _ (record {
                              stacks_typed = v.stacks_typed;
                              profiles_typed = v.profiles_typed;
                              sleeves_typed =
                                  All-snoc
                                    (λ s. (is_sleeve_id s.id && is_stack_id s.stack_id) ≡ true)
                                    w.sleeves _ v.sleeves_typed (both typed owned);
                            }),
                          )
                    | inr (old, taken) ↦ rw (spawn, SleeveAccepted, taken) (refl, v)
                  ])
      ]

update_sleeve-IsTyped :
    (k : Text) (f : Sleeve → Sleeve) (w : World) (db : Db)
    → ((s : Sleeve) → (f s).id ≡ s.id)
    → ((s : Sleeve) → (f s).stack_id ≡ s.stack_id)
    → update_sleeve k f w.db ≡ some db
    → IsTyped w
    → IsTyped (record w { db = db })
unfolding update_sleeve
update_sleeve-IsTyped k f w db keeps keeps' h v = elim (Option-cases (find_sleeve k w.sleeves)) [
  | inl e ↦ absurd (ground (arith, h, e))
  | inr (s, e) ↦
      let h' : some (record w.db { sleeves = change_sleeve k f w.sleeves }) ≡ some db =
        rw (update_sleeve, e) at h in
      rw (sym (some_inj h')) (record {
        stacks_typed = v.stacks_typed;
        profiles_typed = v.profiles_typed;
        sleeves_typed = change_sleeve-typed k f w.sleeves keeps keeps' v.sleeves_typed;
      })
]

-- Decommissioning a sleeve keeps the registry typed.
decommission-IsTyped :
    (k : Text) (up : Bool) (w : World) → IsTyped w → IsTyped (decommission k up w).1
unfolding decommission
decommission-IsTyped k up w v =
    elim (Option-cases (update_sleeve k (λ row. record row { alive = false }) w.db)) [
      | inl e ↦ rw (decommission, e) v
      | inr (db, e) ↦
          let kept =
            update_sleeve-IsTyped k (λ row. record row { alive = false }) w db (λ s. refl)
              (λ s. refl) e v in
          rw (decommission, e)
            (elim (Option-cases (find_sleeve k db.sleeves)) [
              | inl f ↦ rw (decommission, f) v
              | inr (s, f) ↦ rw (decommission, f) (publish_or_drop-IsTyped up _ _ kept)
            ])
    ]
