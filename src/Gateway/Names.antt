-- ===== src/Gateway/Names.antt =====
-- internal/provider/openai/contracts.go: the names of operations, bridges and contracts.
use one_llm_router.Prelude.{String}

abbrev pub op_openai_responses_create : String
op_openai_responses_create = "op.openai.responses.create"

abbrev pub op_openai_responses_websocket : String
op_openai_responses_websocket = "op.openai.responses.websocket"

abbrev pub op_openai_responses_retrieve : String
op_openai_responses_retrieve = "op.openai.responses.retrieve"

abbrev pub op_openai_responses_delete : String
op_openai_responses_delete = "op.openai.responses.delete"

abbrev pub op_openai_responses_cancel : String
op_openai_responses_cancel = "op.openai.responses.cancel"

abbrev pub op_openai_responses_input_items_list : String
op_openai_responses_input_items_list = "op.openai.responses.input_items.list"

abbrev pub op_openai_responses_input_tokens : String
op_openai_responses_input_tokens = "op.openai.responses.input_tokens.create"

abbrev pub op_openai_responses_compact : String
op_openai_responses_compact = "op.openai.responses.compact"

abbrev pub op_openai_conversations_create : String
op_openai_conversations_create = "op.openai.conversations.create"

abbrev pub op_openai_conversations_retrieve : String
op_openai_conversations_retrieve = "op.openai.conversations.retrieve"

abbrev pub op_openai_conversations_update : String
op_openai_conversations_update = "op.openai.conversations.update"

abbrev pub op_openai_conversations_delete : String
op_openai_conversations_delete = "op.openai.conversations.delete"

abbrev pub op_openai_conversations_items_create : String
op_openai_conversations_items_create = "op.openai.conversations.items.create"

abbrev pub op_openai_conversations_items_list : String
op_openai_conversations_items_list = "op.openai.conversations.items.list"

abbrev pub op_openai_conversations_items_retrieve : String
op_openai_conversations_items_retrieve = "op.openai.conversations.items.retrieve"

abbrev pub op_openai_conversations_items_delete : String
op_openai_conversations_items_delete = "op.openai.conversations.items.delete"

abbrev pub op_openai_chat_completions_create : String
op_openai_chat_completions_create = "op.openai.chat_completions.create"

abbrev pub op_openai_chat_completions_list : String
op_openai_chat_completions_list = "op.openai.chat_completions.list"

abbrev pub op_openai_chat_completions_retrieve : String
op_openai_chat_completions_retrieve = "op.openai.chat_completions.retrieve"

abbrev pub op_openai_chat_completions_update : String
op_openai_chat_completions_update = "op.openai.chat_completions.update"

abbrev pub op_openai_chat_completions_delete : String
op_openai_chat_completions_delete = "op.openai.chat_completions.delete"

abbrev pub op_openai_chat_completions_messages_list : String
op_openai_chat_completions_messages_list = "op.openai.chat_completions.messages.list"

abbrev pub op_openai_models_list : String
op_openai_models_list = "op.openai.models.list"

abbrev pub op_openai_models_retrieve : String
op_openai_models_retrieve = "op.openai.models.retrieve"

abbrev pub op_codex_native_responses_create : String
op_codex_native_responses_create = "op.codex_native.responses.create"

abbrev pub op_codex_native_responses_websocket : String
op_codex_native_responses_websocket = "op.codex_native.responses.websocket"

abbrev pub op_codex_native_responses_compact : String
op_codex_native_responses_compact = "op.codex_native.responses.compact"

abbrev pub op_codex_native_models_list : String
op_codex_native_models_list = "op.codex_native.models.list"

abbrev pub op_codex_native_transcribe : String
op_codex_native_transcribe = "op.codex_native.transcribe"

abbrev pub bridge_openai_responses_direct : String
bridge_openai_responses_direct = "bridge.openai.responses.direct"

abbrev pub bridge_openai_responses_compact_direct : String
bridge_openai_responses_compact_direct = "bridge.openai.responses.compact.direct"

abbrev pub bridge_openai_conversations_direct : String
bridge_openai_conversations_direct = "bridge.openai.conversations.direct"

abbrev pub bridge_openai_chat_completions_direct : String
bridge_openai_chat_completions_direct = "bridge.openai.chat_completions.direct"

abbrev pub bridge_openai_models_direct : String
bridge_openai_models_direct = "bridge.openai.models.direct"

abbrev pub bridge_openai_responses_to_codex : String
bridge_openai_responses_to_codex = "bridge.openai.responses.to_codex"

abbrev pub bridge_openai_responses_websocket_to_codex : String
bridge_openai_responses_websocket_to_codex = "bridge.openai.responses.websocket.to_codex"

abbrev pub bridge_openai_responses_compact_to_codex : String
bridge_openai_responses_compact_to_codex = "bridge.openai.responses.compact.to_codex"

abbrev pub bridge_openai_chat_completions_to_codex : String
bridge_openai_chat_completions_to_codex = "bridge.openai.chat_completions.to_codex"

abbrev pub bridge_openai_models_from_codex : String
bridge_openai_models_from_codex = "bridge.openai.models.from_codex"

abbrev pub bridge_codex_native_responses_direct : String
bridge_codex_native_responses_direct = "bridge.codex_native.responses.direct"

abbrev pub bridge_codex_native_responses_websocket_direct : String
bridge_codex_native_responses_websocket_direct = "bridge.codex_native.responses.websocket.direct"

abbrev pub bridge_codex_native_responses_compact_direct : String
bridge_codex_native_responses_compact_direct = "bridge.codex_native.responses.compact.direct"

abbrev pub bridge_codex_native_models_direct : String
bridge_codex_native_models_direct = "bridge.codex_native.models.direct"

abbrev pub bridge_codex_native_transcribe_direct : String
bridge_codex_native_transcribe_direct = "bridge.codex_native.transcribe.direct"

abbrev pub contract_openai_v1_responses : String
contract_openai_v1_responses = "contract.openai.v1.responses"

abbrev pub contract_openai_v1_responses_compact : String
contract_openai_v1_responses_compact = "contract.openai.v1.responses.compact"

abbrev pub contract_openai_v1_responses_ws : String
contract_openai_v1_responses_ws = "contract.openai.v1.responses.websocket"

abbrev pub contract_openai_v1_conversations : String
contract_openai_v1_conversations = "contract.openai.v1.conversations"

abbrev pub contract_openai_v1_chat_completions : String
contract_openai_v1_chat_completions = "contract.openai.v1.chat_completions"

abbrev pub contract_openai_v1_models : String
contract_openai_v1_models = "contract.openai.v1.models"

abbrev pub contract_chatgpt_backend_api_codex_responses : String
contract_chatgpt_backend_api_codex_responses = "contract.chatgpt.backend_api.codex.responses"

abbrev pub contract_chatgpt_backend_api_codex_responses_compact : String
contract_chatgpt_backend_api_codex_responses_compact =
    "contract.chatgpt.backend_api.codex.responses.compact"

abbrev pub contract_chatgpt_backend_api_codex_responses_ws : String
contract_chatgpt_backend_api_codex_responses_ws =
    "contract.chatgpt.backend_api.codex.responses.websocket"

abbrev pub contract_chatgpt_backend_api_codex_models : String
contract_chatgpt_backend_api_codex_models = "contract.chatgpt.backend_api.codex.models"

abbrev pub contract_chatgpt_backend_api_transcribe : String
contract_chatgpt_backend_api_transcribe = "contract.chatgpt.backend_api.transcribe"

abbrev pub adapter_passthrough : String
adapter_passthrough = "passthrough"

abbrev pub adapter_openai_responses_json : String
adapter_openai_responses_json = "openai_responses_json"

abbrev pub adapter_openai_responses_sse : String
adapter_openai_responses_sse = "openai_responses_sse"

abbrev pub adapter_chat_completions_json : String
adapter_chat_completions_json = "chat_completions_json"

abbrev pub adapter_chat_completions_sse : String
adapter_chat_completions_sse = "chat_completions_sse"

abbrev pub adapter_openai_models_list : String
adapter_openai_models_list = "openai_models_list"

abbrev pub adapter_codex_native : String
adapter_codex_native = "codex_native_passthrough"

abbrev pub adapter_websocket_relay : String
adapter_websocket_relay = "websocket_relay"

-- internal/provider/systemone/bridge.go
abbrev pub op_systemone_create : String
op_systemone_create = "op.systemone.create"

abbrev pub contract_systemone : String
contract_systemone = "systemone.v1"

abbrev pub bridge_systemone_direct : String
bridge_systemone_direct = "bridge.systemone.direct"
