-- ===== src/Agent/Inference.antt =====
-- services/agent-runtime/src/inference.ts: the requests that the client sends and what it makes of the
-- answers. The providers are arguments, `JSON.parse` too; `none` is an exception. A temperature is in
-- hundredths.

use dhf.Base.{
  ℕ, Option, none, some, List, [], ◌∷◌, ◌++◌, Text, is_empty, if◌then◌else◌, codes, or_else, ◌>>=◌,
}
use dhf.Http.{Answer, accepted}
use dhf.Agent.{Role, Message, ToolDefinition, ToolCall, Arguments, InferenceResult}

pub data Provider : Type 0 where
  openai anthropic custom : Provider

pub record InferenceConfig : Type 0 where
  pub provider : Provider
  pub base_url : Text
  pub api_key : Text
  pub model : Text
  pub max_tokens : ℕ
  pub temperature : ℕ

pub record OpenaiRequest : Type 0 where
  pub url : Text
  pub authorization : Option Text
  pub model : Text
  pub messages : List Message
  pub max_tokens : ℕ
  pub temperature : ℕ
  pub tools : Option (List ToolDefinition)

pub record OpenaiCall : Type 0 where
  pub id : Text
  pub name : Text
  pub arguments : Option Text

-- the first choice and the counts, where they are there
pub record OpenaiData : Type 0 where
  pub content : Option Text
  pub tool_calls : Option (List OpenaiCall)
  pub finish_reason : Option Text
  pub prompt_tokens : Option ℕ
  pub completion_tokens : Option ℕ

pub record AnthropicRequest : Type 0 where
  pub url : Text
  pub api_key : Text
  pub model : Text
  pub system : Text
  pub messages : List (Role × Text)
  pub max_tokens : ℕ
  pub temperature : ℕ
  pub tools : Option (List ToolDefinition)

pub data Block : Type 0 where
  text : Text → Block
  tool_use : Text → Text → Option Arguments → Block
  other : Text → Block

pub record AnthropicData : Type 0 where
  pub content : Option (List Block)
  pub stop_reason : Option Text
  pub input_tokens : Option ℕ
  pub output_tokens : Option ℕ

-- The two endpoints, and `JSON.parse` of a call's arguments.
pub record Providers : Type 0 where
  pub chat_completions : OpenaiRequest → Option (Answer OpenaiData)
  pub anthropic_messages : AnthropicRequest → Option (Answer AnthropicData)
  pub parse_json : Text → Option Arguments

-- `if (tools && tools.length > 0)`
abbrev pub sent_tools : List ToolDefinition → Option (List ToolDefinition)
sent_tools [] = none
sent_tools (t ∷ ts) = some (t ∷ ts)

unfoldable pub openai_request : InferenceConfig → List Message → List ToolDefinition → OpenaiRequest
openai_request config messages tools = record {
  url = config.base_url ++ codes "/chat/completions";
  authorization =
      if is_empty config.api_key then none else some (codes "Bearer " ++ config.api_key);
  model = config.model;
  messages = messages;
  max_tokens = config.max_tokens;
  temperature = config.temperature;
  tools = sent_tools tools;
}

-- A call whose arguments are no JSON throws.
unfoldable pub openai_calls : (Text → Option Arguments) → List OpenaiCall → Option (List ToolCall)
openai_calls parse [] = some []
openai_calls parse (c ∷ rest) = parse (or_else c.arguments (codes "{}")) >>= λ args.
    openai_calls parse rest >>= λ more.
    some (record { id = c.id; name = c.name; arguments = args } ∷ more)

unfoldable pub openai_result : (Text → Option Arguments) → OpenaiData → Option InferenceResult
unfolding openai_calls
openai_result parse data_of = openai_calls parse (or_else data_of.tool_calls []) >>= λ calls.
    some (record {
      content = or_else data_of.content [];
      tool_calls = calls;
      prompt_tokens = or_else data_of.prompt_tokens 0;
      completion_tokens = or_else data_of.completion_tokens 0;
      finish_reason = or_else data_of.finish_reason (codes "stop");
    })

-- The first system message, and the others without the system messages, where a tool's is a user's.
unfoldable pub system_message : List Message → Text
system_message [] = []
system_message (m ∷ rest) = elim m.role [ Role.system ↦ m.content | _ ↦ system_message rest ]

unfoldable pub chat_messages : List Message → List (Role × Text)
chat_messages [] = []
chat_messages (m ∷ rest) = elim m.role [
  | Role.system ↦ chat_messages rest
  | Role.user ↦ (Role.user, m.content) ∷ chat_messages rest
  | Role.assistant ↦ (Role.assistant, m.content) ∷ chat_messages rest
  | Role.tool ↦ (Role.user, m.content) ∷ chat_messages rest
]

unfoldable pub anthropic_request :
    InferenceConfig → List Message → List ToolDefinition → AnthropicRequest
unfolding system_message chat_messages
anthropic_request config messages tools = record {
  url = config.base_url ++ codes "/messages";
  api_key = config.api_key;
  model = config.model;
  system = system_message messages;
  messages = chat_messages messages;
  max_tokens = config.max_tokens;
  temperature = config.temperature;
  tools = sent_tools tools;
}

unfoldable pub block_texts : List Block → Text
block_texts [] = []
block_texts (text t ∷ rest) = t ++ block_texts rest
block_texts (_ ∷ rest) = block_texts rest

unfoldable pub block_calls : List Block → List ToolCall
block_calls [] = []
block_calls (tool_use id name args ∷ rest) =
    record { id = id; name = name; arguments = or_else args [] } ∷ block_calls rest
block_calls (_ ∷ rest) = block_calls rest

unfoldable pub anthropic_result : AnthropicData → InferenceResult
unfolding block_texts block_calls
anthropic_result data_of =
    let blocks = or_else data_of.content [] in
    let calls = block_calls blocks in
    record {
      content = block_texts blocks;
      tool_calls = calls;
      prompt_tokens = or_else data_of.input_tokens 0;
      completion_tokens = or_else data_of.output_tokens 0;
      finish_reason =
          if is_empty calls then or_else data_of.stop_reason (codes "stop") else codes "tool_calls";
    }

module _ (providers : Providers) where
  unfoldable pub complete :
      InferenceConfig → List Message → List ToolDefinition → Option InferenceResult
  unfolding accepted openai_request openai_result anthropic_request anthropic_result
  complete config messages tools = elim config.provider [
    | Provider.anthropic ↦
        (providers.anthropic_messages (anthropic_request config messages tools)
          >>= accepted
          >>= λ d. some (anthropic_result d))
    | _ ↦
        (providers.chat_completions (openai_request config messages tools)
          >>= accepted
          >>= openai_result providers.parse_json)
  ]

  unfoldable pub generate : InferenceConfig → Text → Text → Option Text
  unfolding complete
  generate config prompt system_prompt =
      let asked : Message = record {
        role = Role.user;
        content = prompt;
        name = none;
        tool_call_id = none;
      } in
      let told : Message = record {
        role = Role.system;
        content = system_prompt;
        name = none;
        tool_call_id = none;
      } in
      complete config (if is_empty system_prompt then asked ∷ [] else told ∷ asked ∷ []) [] >>= λ r.
      some r.content
