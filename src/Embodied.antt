-- ===== src/Embodied.antt =====
-- services/sleeve-runtime/src/server.ts: one process for a sleeve. The gateway is an argument: its
-- operations on a state of its own, `none` where the request fails. The random choice is the input.
pub mod Gateways
pub mod Lives
use dhf.Base.{
  ℕ, Option, none, some, Bool, true, false, List, [], ◌∷◌, ◌++◌, Text, if◌then◌else◌, codes,
  or_else, ◌>>=◌, is_empty,
}
use dhf.Http.{Answer, is_ok_status}
use dhf.Registry.{EmbodimentType}

-- The gateway's endpoints that the process calls, on a state.
pub record Gateway (S : Type 0) : Type 0 where
  pub list_stacks : S → Option (List Text)
  pub create_stack : Text → Text → S → Option Text × S
  pub spawn : Text → EmbodimentType → Text → S → Option Text × S
  pub perceive : Text → Text → S → S
  pub sync : Text → S → S
  pub decommission : Text → S → S
  -- the pool of the mining node, by the host
  pub join_pool : Text → S → S

pub record Settings : Type 0 where
  pub kind : EmbodimentType
  pub stack_id : Option Text
  pub hostname : Text

pub record Identity : Type 0 where
  pub sleeve_id : Text
  pub kind : EmbodimentType
  pub stack_id : Text
  pub hostname : Text

-- `KIND === 'ai' ? 'ai' : 'human'`
unfoldable pub stack_kind : EmbodimentType → Text
stack_kind EmbodimentType.ai = codes "ai"
stack_kind _ = codes "human"

-- The prompt of an `ai` sleeve: the model's, where there is one that answers, or the canned one. `none`
-- of the model is that it is not configured or not reached; the response may be missing in the body.
unfoldable pub ai_prompt : Option (Answer (Option Text)) → Text → Text
unfolding is_ok_status
ai_prompt none canned = canned
ai_prompt (some r) canned =
    if is_ok_status r.status
    then elim r.body [ none ↦ canned | some response ↦ or_else response canned ]
    else canned

module _ {S : Type 0} (gateway : Gateway S) where
  unfoldable pub ensure_stack : Settings → S → Option Text × S
  unfolding stack_kind
  ensure_stack set s = elim (or_else set.stack_id []) [
    | c ∷ cs ↦ (some (c ∷ cs), s)
    | [] ↦ elim (gateway.list_stacks s) [
      | none ↦ (none, s)
      | some (first ∷ others) ↦ (some first, s)
      | some [] ↦ gateway.create_stack (codes "auto-" ++ set.hostname) (stack_kind set.kind) s
    ]
  ]

  -- `main` as far as the tick; an exception ends the process.
  unfoldable pub boot : Settings → S → Option Identity × S
  unfolding ensure_stack
  boot set s =
      let (stack, s1) = ensure_stack set s in
      elim stack [
        | none ↦ (none, s1)
        | some stack_id ↦
            (let (created, s2) = gateway.spawn stack_id set.kind set.hostname s1 in
              elim created [
                | none ↦ (none, s2)
                | some sleeve_id ↦ (
                  some (record {
                    sleeve_id = sleeve_id;
                    kind = set.kind;
                    stack_id = stack_id;
                    hostname = set.hostname;
                  }),
                  s2,
                )
              ])
      ]

  -- A tick: what fails is dropped.
  unfoldable pub tick : Option (Answer (Option Text)) → Text → Identity → S → S
  unfolding ai_prompt
  tick model canned me s = elim me.kind [
    | EmbodimentType.human ↦ gateway.perceive me.sleeve_id canned s
    | EmbodimentType.ai ↦ gateway.perceive me.sleeve_id (ai_prompt model canned) s
    | EmbodimentType.mining ↦ gateway.join_pool me.hostname s
    | EmbodimentType.memory ↦ gateway.sync me.sleeve_id s
  ]

  -- The ticks, each with whether its request reaches the gateway.
  unfoldable pub ticks : List (Bool × Option (Answer (Option Text)) × Text) → Identity → S → S
  unfolding tick
  ticks [] me s = s
  ticks ((reached, model, canned) ∷ rest) me s =
      ticks rest me (if reached then tick model canned me s else s)

  -- The shutdown: a request that fails is passed over.
  unfoldable pub shut_down : Bool → Identity → S → S
  shut_down reached me s = if reached then gateway.decommission me.sleeve_id s else s

  -- A whole life of the process, with whether the request of the shutdown reaches the gateway.
  unfoldable pub live : Settings → List (Bool × Option (Answer (Option Text)) × Text) → Bool → S → S
  unfolding boot ticks shut_down
  live set inputs reached s =
      let (me, s') = boot set s in
      elim me [ none ↦ s' | some i ↦ shut_down reached i (ticks inputs i s') ]
