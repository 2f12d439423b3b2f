-- ===== src/AgUi/Types.antt =====
-- crates/gola-ag-ui-types/src/types.rs: what a client sends. `V` is `serde_json::Value`; an `i64` is a `ℤ`.
use gola.Prelude.{ℕ, Option, none, some, List, Text}

-- `negsuc n` is -(n + 1).
pub data ℤ : Type 0 where
  pos : ℕ → ℤ
  negsuc : ℕ → ℤ

pub record FunctionCall : Type 0 where
  pub name : Text
  pub arguments : Text

pub data ToolCallType : Type 0 where
  function : ToolCallType

pub record ToolCall : Type 0 where
  pub id : Text
  pub call_type : ToolCallType
  pub function : FunctionCall

pub data Role : Type 0 where
  developer system assistant user tool : Role

pub record DeveloperMessage : Type 0 where
  pub id : Text
  pub content : Text
  pub name : Option Text

pub record SystemMessage : Type 0 where
  pub id : Text
  pub content : Text
  pub name : Option Text

pub record AssistantMessage : Type 0 where
  pub id : Text
  pub content : Option Text
  pub name : Option Text
  pub tool_calls : Option (List ToolCall)

pub record UserMessage : Type 0 where
  pub id : Text
  pub content : Text
  pub name : Option Text

pub record ToolMessage : Type 0 where
  pub id : Text
  pub content : Text
  pub tool_call_id : Text

pub data Message : Type 0 where
  developer : Text → Text → Option Text → Message
  system : Text → Text → Option Text → Message
  assistant : Text → Option Text → Option Text → Option (List ToolCall) → Message
  user : Text → Text → Option Text → Message
  tool : Text → Text → Text → Message

pub record Context : Type 0 where
  pub description : Text
  pub value : Text

pub record Tool (V : Type 0) : Type 0 where
  pub name : Text
  pub description : Text
  pub parameters : V

pub record RunAgentInput (V : Type 0) : Type 0 where
  pub thread_id : Text
  pub run_id : Text
  pub state : V
  pub messages : List Message
  pub tools : List (Tool V)
  pub context : List Context
  pub forwarded_props : V

unfoldable pub message_id : Message → Text
message_id (developer id content name) = id
message_id (system id content name) = id
message_id (assistant id content name calls) = id
message_id (user id content name) = id
message_id (tool id content call_id) = id

unfoldable pub role_of : Message → Role
role_of (developer id content name) = Role.developer
role_of (system id content name) = Role.system
role_of (assistant id content name calls) = Role.assistant
role_of (user id content name) = Role.user
role_of (tool id content call_id) = Role.tool

unfoldable pub content_of : Message → Option Text
content_of (developer id content name) = some content
content_of (system id content name) = some content
content_of (assistant id content name calls) = content
content_of (user id content name) = some content
content_of (tool id content call_id) = some content

abbrev pub new_developer : Text → Text → Message
new_developer id content = developer id content none

abbrev pub new_developer_with_name : Text → Text → Text → Message
new_developer_with_name id content name = developer id content (some name)

abbrev pub new_system : Text → Text → Message
new_system id content = system id content none

abbrev pub new_system_with_name : Text → Text → Text → Message
new_system_with_name id content name = system id content (some name)

abbrev pub new_assistant : Text → Text → Message
new_assistant id content = assistant id (some content) none none

abbrev pub new_assistant_with_tool_calls : Text → List ToolCall → Message
new_assistant_with_tool_calls id tool_calls = assistant id none none (some tool_calls)

abbrev pub new_assistant_with_content_and_tool_calls : Text → Text → List ToolCall → Message
new_assistant_with_content_and_tool_calls id content tool_calls =
    assistant id (some content) none (some tool_calls)

abbrev pub new_user : Text → Text → Message
new_user id content = user id content none

abbrev pub new_user_with_name : Text → Text → Text → Message
new_user_with_name id content name = user id content (some name)

abbrev pub new_tool : Text → Text → Text → Message
new_tool id content tool_call_id = tool id content tool_call_id

abbrev pub new_developer_message : Text → Text → DeveloperMessage
new_developer_message id content = record { id = id; content = content; name = none }

abbrev pub developer_message_with_name : Text → Text → Text → DeveloperMessage
developer_message_with_name id content name = record {
  id = id;
  content = content;
  name = some name;
}

abbrev pub new_system_message : Text → Text → SystemMessage
new_system_message id content = record { id = id; content = content; name = none }

abbrev pub system_message_with_name : Text → Text → Text → SystemMessage
system_message_with_name id content name = record { id = id; content = content; name = some name }

abbrev pub new_assistant_message : Text → Text → AssistantMessage
new_assistant_message id content = record {
  id = id;
  content = some content;
  name = none;
  tool_calls = none;
}

abbrev pub assistant_message_with_tool_calls : Text → List ToolCall → AssistantMessage
assistant_message_with_tool_calls id tool_calls = record {
  id = id;
  content = none;
  name = none;
  tool_calls = some tool_calls;
}

abbrev pub assistant_message_with_content_and_tool_calls :
    Text → Text → List ToolCall → AssistantMessage
assistant_message_with_content_and_tool_calls id content tool_calls = record {
  id = id;
  content = some content;
  name = none;
  tool_calls = some tool_calls;
}

abbrev pub new_user_message : Text → Text → UserMessage
new_user_message id content = record { id = id; content = content; name = none }

abbrev pub user_message_with_name : Text → Text → Text → UserMessage
user_message_with_name id content name = record { id = id; content = content; name = some name }

abbrev pub new_tool_message : Text → Text → Text → ToolMessage
new_tool_message id content tool_call_id = record {
  id = id;
  content = content;
  tool_call_id = tool_call_id;
}

abbrev pub new_tool_call : Text → FunctionCall → ToolCall
new_tool_call id call = record { id = id; call_type = function; function = call }

abbrev pub new_tool_description : {V : Type 0} → Text → Text → V → Tool V
new_tool_description name description parameters = record {
  name = name;
  description = description;
  parameters = parameters;
}

abbrev pub new_run_agent_input :
    {V : Type 0}
    → Text
    → Text
    → V
    → List Message
    → List (Tool V)
    → List Context
    → V
    → RunAgentInput V
new_run_agent_input thread_id run_id state messages tools context forwarded_props = record {
  thread_id = thread_id;
  run_id = run_id;
  state = state;
  messages = messages;
  tools = tools;
  context = context;
  forwarded_props = forwarded_props;
}
