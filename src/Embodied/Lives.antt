-- ===== src/Embodied/Lives.antt =====
-- A life of a sleeve's process on the gateway.
use dhf.Base.{
  ℕ, ◌≡◌, ◌+◌, ◌-◌, ltb, refl, ap, ◌∙◌, inl, inr, Option, none, some, Bool, true, false, not, List,
  [], ◌∷◌, ◌++◌, Text, Bytes, text_eq_iff, arith, Bool-cases, Option-cases,
}
use dhf.Crypto.Primitives.{Noble}
use dhf.Chain.Hippocampus.{Node}
use dhf.Http.{Answer}
use dhf.Registry.{
  Sleeve, Db, World, ok, amount, whole, find_stack, change_stack, find_sleeve, change_sleeve,
  update_sleeve, update_stack, publish_or_drop, EmbodimentType, Event, Reply-cases,
}
use dhf.Registry.Laws.{find_sleeve-id, find_sleeve-change_self}
use dhf.Siyana.Sleeves.{
  Perceived, perceive_start, perceive_commit, perceive, sync, decommission, spawn,
}
use dhf.Embodied.{Settings, Identity, ai_prompt, ensure_stack, boot, tick, ticks, shut_down, live}
use dhf.Embodied.Gateways.{Surroundings, siyana}

-- Whether there is a row of the sleeve that is alive.
abbrev pub is_alive : Text → List Sleeve → Bool
is_alive k sleeves = elim (find_sleeve k sleeves) [ none ↦ false | some s ↦ s.alive ]

alive_row :
    (k : Text) (l : List Sleeve)
    → is_alive k l ≡ true
    → (s : Sleeve) × (find_sleeve k l ≡ some s) × (s.alive ≡ true)
alive_row k l up = elim (Option-cases (find_sleeve k l)) [
  | inl e ↦ cc (rw (is_alive, e) at up)
  | inr (s, e) ↦ (s, e, rw (is_alive, e) at up)
]

change_sleeve-is_alive :
    (k j : Text) (f : Sleeve → Sleeve) (l : List Sleeve)
    → ((s : Sleeve) → (f s).id ≡ s.id)
    → ((s : Sleeve) → (f s).alive ≡ s.alive)
    → is_alive k (change_sleeve j f l) ≡ is_alive k l
unfolding find_sleeve change_sleeve
change_sleeve-is_alive k j f [] same still = refl
change_sleeve-is_alive k j f (t ∷ l) same still = ground (
  arith,
  same t,
  still t,
  text_eq_iff t.id k,
  text_eq_iff (f t).id k,
  change_sleeve-is_alive k j f l same still,
)

append-is_alive :
    (k : Text) (s : Sleeve) (l : List Sleeve)
    → s.id ≡ k
    → s.alive ≡ true
    → find_sleeve k l ≡ none
    → is_alive k (l ++ s ∷ []) ≡ true
unfolding find_sleeve
append-is_alive k s [] same up free = ground (arith, text_eq_iff s.id k, same, up)
append-is_alive k s (t ∷ l) same up free = ground (arith, free, append-is_alive k s l same up)

publish_or_drop-sleeves :
    (up : Bool) (e : Event) (w : World) → (publish_or_drop up e w).sleeves ≡ w.sleeves
unfolding publish_or_drop
publish_or_drop-sleeves up e w = ground arith

update_sleeve-is_alive :
    (j k : Text) (f : Sleeve → Sleeve) (db db' : Db)
    → ((s : Sleeve) → (f s).id ≡ s.id)
    → ((s : Sleeve) → (f s).alive ≡ s.alive)
    → update_sleeve k f db ≡ some db'
    → is_alive j db'.sleeves ≡ is_alive j db.sleeves
unfolding update_sleeve
update_sleeve-is_alive j k f db db' same still h =
    ground (arith, h, change_sleeve-is_alive j k f db.sleeves same still)

decommission-dead :
    (k : Text) (up : Bool) (w : World)
    → is_alive k w.sleeves ≡ true
    → (s : Sleeve) × (find_sleeve k ((decommission k up w).1).sleeves ≡ some s) × (s.alive ≡ false)
unfolding decommission find_sleeve
decommission-dead k up w there = elim (Option-cases (find_sleeve k w.sleeves)) [
  | inl e ↦ absurd (ground (arith, e, there))
  | inr (s, e) ↦
      (let changed =
          find_sleeve-change_self k (λ row. record row { alive = false }) w.sleeves {s = s} e
            (find_sleeve-id k w.sleeves {s = s} e) in
        (
          record s { alive = false },
          rw (decommission, update_sleeve, e, changed, publish_or_drop-sleeves) changed,
          refl,
        ))
]

sync-is_alive :
    (j k : Text) (now : ℕ) (w : World) → is_alive j (sync k now w).1.sleeves ≡ is_alive j w.sleeves
unfolding sync
sync-is_alive j k now w = elim (Option-cases (find_sleeve k w.sleeves)) [
  | inl e ↦ rw (sync, e) refl
  | inr (s, e) ↦ elim (Option-cases (find_stack s.stack_id w.stacks)) [
    | inl f ↦ rw (sync, e, f) refl
    | inr (stack, f) ↦ elim (Bool-cases (ltb (amount s.tokens.sync) (whole 1))) [
      | inl g ↦ rw (sync, e, f, g) refl
      | inr g ↦
          (let settled : Sleeve → Sleeve = λ row. record row {
            drift = 0;
            sync_epoch = stack.epoch;
            last_sync = now;
            tokens = record s.tokens { sync = some (amount s.tokens.sync - whole 1) };
          } in
            elim (Option-cases (update_sleeve s.id settled w.db)) [
              | inl h ↦ rw (sync, e, f, g, h) refl
              | inr (db', h) ↦
                  rw (sync, e, f, g, h)
                    (update_sleeve-is_alive j s.id settled w.db db' (λ t. refl) (λ t. refl) h)
            ])
    ]
  ]
]

perceive_commit-is_alive :
    (n : Noble) (p : Perceived) (committed up : Bool) (j : Text) (w : World)
    → is_alive j (perceive_commit n p committed up w).1.sleeves ≡ is_alive j w.sleeves
unfolding perceive_commit update_stack
perceive_commit-is_alive n p committed up j w = elim (Bool-cases committed) [
  | inr e ↦ rw (perceive_commit, e) refl
  | inl e ↦ elim (Option-cases (find_stack p.stack.id w.stacks)) [
    | inl f ↦ rw (perceive_commit, e, update_stack, f) refl
    | inr (s, f) ↦
        (let noted : Db = record w.db {
          stacks =
              change_stack p.stack.id (λ row. record row { episodic_head = some p.cid }) w.stacks;
        } in
          let charged : Sleeve → Sleeve = λ row. record row {
            drift = row.drift + 1;
            tokens = record p.sleeve.tokens { compute = some (amount p.sleeve.tokens.compute - 1) };
          } in
          elim (Option-cases (update_sleeve p.sleeve.id charged noted)) [
            | inl g ↦ rw (perceive_commit, e, update_stack, f, g) refl
            | inr (db', g) ↦
                rw (perceive_commit, e, update_stack, f, g)
                  (ap (λ l. is_alive j l)
                      (publish_or_drop-sleeves up
                        (Event.sleeve_perceive p.sleeve.id p.stack.id p.cid)
                        (record w { db = db' }))
                    ∙ update_sleeve-is_alive j p.sleeve.id charged noted db' (λ t. refl) (λ t. refl)
                        g)
          ])
  ]
]

perceive-is_alive :
    (n : Noble) (node : Node) (master : Option Text) (j k input : Text) (iv : Bytes)
    (committed up : Bool) (w : World)
    → is_alive j (perceive n node master k input iv committed up w).1.sleeves ≡ is_alive j w.sleeves
unfolding perceive
perceive-is_alive n node master j k input iv committed up w =
    elim (Reply-cases (perceive_start n node master k input iv w)) [
      | inl (p, e) ↦ rw (perceive, e) (perceive_commit-is_alive n p committed up j w)
      | inr bad ↦ ground (arith, bad)
    ]

spawn-is_alive :
    (n : Noble) (stack_id : Text) (kind : EmbodimentType) (hostname : Option Text) (now : ℕ)
    (up : Bool) (w : World) (s : Sleeve)
    → (spawn n stack_id kind hostname now up w).0 ≡ ok s
    → is_alive s.id (spawn n stack_id kind hostname now up w).1.sleeves ≡ true
unfolding spawn
spawn-is_alive n stack_id kind hostname now up w s h =
    elim (Option-cases (find_stack stack_id w.stacks)) [
      | inl e ↦ absurd (ground (arith, rw (spawn, e) at h))
      | inr (stack, e) ↦ ground (
        arith,
        rw (spawn, e) at h,
        append-is_alive s.id s w.sleeves refl,
        publish_or_drop-sleeves up (Event.sleeve_spawned s.id s.stack_id kind now)
            (record w { db = record w.db { sleeves = w.sleeves ++ s ∷ [] } }),
      )
    ]

module _ (n : Noble) (node : Node) (master : Option Text) (around : Surroundings) where
  tick-is_alive :
      (model : Option (Answer (Option Text))) (canned : Text) (me : Identity) (j : Text) (w : World)
      → is_alive j (tick (siyana n node master around) model canned me w).sleeves
        ≡ is_alive j w.sleeves
  unfolding tick siyana
  tick-is_alive model canned me j w = ground (
    arith,
    perceive-is_alive n node master j me.sleeve_id canned around.iv around.committed around.up w,
    perceive-is_alive n node master j me.sleeve_id (ai_prompt model canned) around.iv
        around.committed around.up w,
    sync-is_alive j me.sleeve_id around.now w,
  )

  ticks-is_alive :
      (inputs : List (Bool × Option (Answer (Option Text)) × Text)) (me : Identity) (j : Text)
      (w : World)
      → is_alive j (ticks (siyana n node master around) inputs me w).sleeves ≡ is_alive j w.sleeves
  unfolding ticks
  ticks-is_alive [] me j w = refl
  ticks-is_alive ((false, model, canned) ∷ rest) me j w = ticks-is_alive rest me j w
  ticks-is_alive ((true, model, canned) ∷ rest) me j w =
      ticks-is_alive rest me j (tick (siyana n node master around) model canned me w)
      ∙ tick-is_alive model canned me j w

  boot-is_alive :
      (set : Settings) (w : World) (me : Identity)
      → (boot (siyana n node master around) set w).0 ≡ some me
      → is_alive me.sleeve_id (boot (siyana n node master around) set w).1.sleeves ≡ true
  unfolding boot siyana
  boot-is_alive set w me h =
      elim (Option-cases (ensure_stack (siyana n node master around) set w).0) [
        | inl e ↦ absurd (ground (arith, rw (boot, e) at h))
        | inr (stack_id, e) ↦
            (let w1 : World = (ensure_stack (siyana n node master around) set w).1 in
              elim (Reply-cases
                (spawn n stack_id set.kind (some set.hostname) around.now around.up w1).0) [
                  | inl (s, f) ↦ ground (
                    arith,
                    e,
                    f,
                    h,
                    spawn-is_alive n stack_id set.kind (some set.hostname) around.now around.up w1 s
                        f,
                  )
                  | inr bad ↦ absurd (ground (arith, e, bad, h))
                ])
      ]

  -- The process that registers a sleeve with the gateway leaves its row there when it is shut down,
  -- whatever its ticks were and whether the bus, the model, the node and, at a tick, the gateway
  -- answered or not, in surroundings of the gateway that do not change: not alive, if the request of the
  -- shutdown reaches the gateway, and still alive if it does not.
  pub live-decommissions :
      (set : Settings) (inputs : List (Bool × Option (Answer (Option Text)) × Text)) (w : World)
      (reached : Bool) (me : Identity)
      → (boot (siyana n node master around) set w).0 ≡ some me
      → (s : Sleeve) × (find_sleeve me.sleeve_id
            (live (siyana n node master around) set inputs reached w).sleeves
          ≡ some s)
        × (s.alive ≡ not reached)
  unfolding live shut_down siyana
  live-decommissions set inputs w reached me h =
      let w1 : World = (boot (siyana n node master around) set w).1 in
      let w2 : World = ticks (siyana n node master around) inputs me w1 in
      let up = ticks-is_alive inputs me me.sleeve_id w1 ∙ boot-is_alive set w me h in
      elim (Bool-cases reached) [
        | inl e ↦ rw (live, h, e) (decommission-dead me.sleeve_id around.up w2 up)
        | inr e ↦ rw (live, h, e) (alive_row me.sleeve_id w2.sleeves up)
      ]
