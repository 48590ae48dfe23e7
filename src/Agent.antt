-- ===== src/Agent.antt =====
-- services/agent-runtime/src: the inference client, the agent's loop with its memory tools, and the
-- server. The values that JSON leaves untyped are `Value`; a nested value stands as the text that
-- `String` makes of it.
pub mod Inference
pub mod Tools
pub mod Loop
pub mod Server
use dhf.Base.{
  ℕ, ◌+◌, Option, none, some, Bool, true, false, not, List, [], ◌∷◌, ◌++◌, Text, text_eq, is_empty,
  if◌then◌else◌, codes, or_else, ◌==◌,
}
use dhf.Base.Decimal.{to_decimal}

pub data Value : Type 0 where
  string : Text → Value
  number : ℕ → Value
  boolean : Bool → Value
  null : Value
  nested : Text → Value

-- `Record<string, unknown>`
abbrev pub Arguments : Type 0
Arguments = List (Text × Value)

unfoldable pub argument : Text → Arguments → Option Value
argument k [] = none
argument k ((j, v) ∷ rest) = if text_eq j k then some v else argument k rest

-- `String(v)`
unfoldable pub to_string : Value → Text
to_string (string t) = t
to_string (number k) = to_decimal k
to_string (boolean true) = codes "true"
to_string (boolean false) = codes "false"
to_string null = codes "null"
to_string (nested t) = t

-- `if (v)`
unfoldable pub is_truthy : Value → Bool
is_truthy (string t) = not (is_empty t)
is_truthy (number k) = not (k == 0)
is_truthy (boolean b) = b
is_truthy null = false
is_truthy (nested t) = true

-- `String(args.k ?? '')`
unfoldable pub string_argument : Text → Arguments → Text
unfolding argument to_string
string_argument k args = elim (argument k args) [
  | none ↦ []
  | some null ↦ []
  | some v ↦ to_string v
]

pub data Role : Type 0 where
  system user assistant tool : Role

pub record Message : Type 0 where
  pub role : Role
  pub content : Text
  pub name : Option Text
  pub tool_call_id : Option Text

pub record ToolDefinition : Type 0 where
  pub name : Text
  pub description : Text
  pub parameters : Text

pub record ToolCall : Type 0 where
  pub id : Text
  pub name : Text
  pub arguments : Arguments

-- The provider's reason is passed on as it is.
pub record InferenceResult : Type 0 where
  pub content : Text
  pub tool_calls : List ToolCall
  pub prompt_tokens : ℕ
  pub completion_tokens : ℕ
  pub finish_reason : Text
