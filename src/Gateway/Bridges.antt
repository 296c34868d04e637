-- ===== src/Gateway/Bridges.antt =====
-- internal/provider/openai/bridge.go: the table of bridges, and internal/provider/systemone/bridge.go.
use one_llm_router.Prelude.{String, List, [], ◌∷◌, ◌++◌, map}
use one_llm_router.Gateway.Names.{
  adapter_chat_completions_json, adapter_codex_native, adapter_openai_models_list,
  adapter_openai_responses_json, adapter_passthrough, adapter_websocket_relay,
  bridge_codex_native_models_direct, bridge_codex_native_responses_compact_direct,
  bridge_codex_native_responses_direct, bridge_codex_native_responses_websocket_direct,
  bridge_codex_native_transcribe_direct, bridge_openai_chat_completions_direct,
  bridge_openai_chat_completions_to_codex, bridge_openai_conversations_direct,
  bridge_openai_models_direct, bridge_openai_models_from_codex,
  bridge_openai_responses_compact_direct, bridge_openai_responses_compact_to_codex,
  bridge_openai_responses_direct, bridge_openai_responses_to_codex,
  bridge_openai_responses_websocket_to_codex, bridge_systemone_direct,
  contract_chatgpt_backend_api_codex_models, contract_chatgpt_backend_api_codex_responses,
  contract_chatgpt_backend_api_codex_responses_compact,
  contract_chatgpt_backend_api_codex_responses_ws, contract_chatgpt_backend_api_transcribe,
  contract_openai_v1_chat_completions, contract_openai_v1_conversations, contract_openai_v1_models,
  contract_openai_v1_responses, contract_openai_v1_responses_compact,
  contract_openai_v1_responses_ws, contract_systemone, op_codex_native_models_list,
  op_codex_native_responses_compact, op_codex_native_responses_create,
  op_codex_native_responses_websocket, op_codex_native_transcribe,
  op_openai_chat_completions_create, op_openai_chat_completions_delete,
  op_openai_chat_completions_list, op_openai_chat_completions_messages_list,
  op_openai_chat_completions_retrieve, op_openai_chat_completions_update,
  op_openai_conversations_create, op_openai_conversations_delete,
  op_openai_conversations_items_create, op_openai_conversations_items_delete,
  op_openai_conversations_items_list, op_openai_conversations_items_retrieve,
  op_openai_conversations_retrieve, op_openai_conversations_update, op_openai_models_list,
  op_openai_models_retrieve, op_openai_responses_cancel, op_openai_responses_compact,
  op_openai_responses_create, op_openai_responses_delete, op_openai_responses_input_items_list,
  op_openai_responses_input_tokens, op_openai_responses_retrieve, op_openai_responses_websocket,
  op_systemone_create,
}
use one_llm_router.Gateway.Registry.{OperationBridge, Credential, api_key, oauth}

record BridgeSpec : Type 0 where
  credential : Credential
  op_ids : List String
  bridge_id : String
  client_contract : String
  upstream_contract : String
  upstream_path : String
  adapter_kind : String

-- add(spec)
add : BridgeSpec → List OperationBridge
add spec =
    map
      (λ op_id. record {
        id = spec.bridge_id;
        op_id = op_id;
        credential = spec.credential;
        client_contract = spec.client_contract;
        upstream_contract = spec.upstream_contract;
        upstream_path = spec.upstream_path;
        adapter_kind = spec.adapter_kind;
      })
      spec.op_ids

add_all : List BridgeSpec → List OperationBridge
add_all [] = []
add_all (spec ∷ specs) = add spec ++ add_all specs

abbrev specs : List BridgeSpec
specs =
    record {
      credential = api_key;
      op_ids =
          op_openai_responses_create ∷ op_openai_responses_retrieve ∷ op_openai_responses_delete
          ∷ op_openai_responses_cancel ∷ op_openai_responses_input_items_list
          ∷ op_openai_responses_input_tokens ∷ [];
      bridge_id = bridge_openai_responses_direct;
      client_contract = contract_openai_v1_responses;
      upstream_contract = contract_openai_v1_responses;
      upstream_path = "";
      adapter_kind = adapter_passthrough;
    }
    ∷ record {
      credential = api_key;
      op_ids = op_openai_responses_compact ∷ [];
      bridge_id = bridge_openai_responses_compact_direct;
      client_contract = contract_openai_v1_responses_compact;
      upstream_contract = contract_openai_v1_responses_compact;
      upstream_path = "";
      adapter_kind = adapter_passthrough;
    }
    ∷ record {
      credential = api_key;
      op_ids =
          op_openai_conversations_create ∷ op_openai_conversations_retrieve
          ∷ op_openai_conversations_update ∷ op_openai_conversations_delete
          ∷ op_openai_conversations_items_create ∷ op_openai_conversations_items_list
          ∷ op_openai_conversations_items_retrieve ∷ op_openai_conversations_items_delete ∷ [];
      bridge_id = bridge_openai_conversations_direct;
      client_contract = contract_openai_v1_conversations;
      upstream_contract = contract_openai_v1_conversations;
      upstream_path = "";
      adapter_kind = adapter_passthrough;
    }
    ∷ record {
      credential = api_key;
      op_ids =
          op_openai_chat_completions_create ∷ op_openai_chat_completions_list
          ∷ op_openai_chat_completions_retrieve ∷ op_openai_chat_completions_update
          ∷ op_openai_chat_completions_delete ∷ op_openai_chat_completions_messages_list ∷ [];
      bridge_id = bridge_openai_chat_completions_direct;
      client_contract = contract_openai_v1_chat_completions;
      upstream_contract = contract_openai_v1_chat_completions;
      upstream_path = "";
      adapter_kind = adapter_passthrough;
    }
    ∷ record {
      credential = api_key;
      op_ids = op_openai_models_list ∷ op_openai_models_retrieve ∷ [];
      bridge_id = bridge_openai_models_direct;
      client_contract = contract_openai_v1_models;
      upstream_contract = contract_openai_v1_models;
      upstream_path = "";
      adapter_kind = adapter_passthrough;
    }
    ∷ record {
      credential = oauth;
      op_ids = op_openai_responses_create ∷ [];
      bridge_id = bridge_openai_responses_to_codex;
      client_contract = contract_openai_v1_responses;
      upstream_contract = contract_chatgpt_backend_api_codex_responses;
      upstream_path = "/codex/responses";
      adapter_kind = adapter_openai_responses_json;
    }
    ∷ record {
      credential = oauth;
      op_ids = op_openai_responses_websocket ∷ [];
      bridge_id = bridge_openai_responses_websocket_to_codex;
      client_contract = contract_openai_v1_responses_ws;
      upstream_contract = contract_chatgpt_backend_api_codex_responses_ws;
      upstream_path = "/codex/responses";
      adapter_kind = adapter_websocket_relay;
    }
    ∷ record {
      credential = oauth;
      op_ids = op_openai_responses_compact ∷ [];
      bridge_id = bridge_openai_responses_compact_to_codex;
      client_contract = contract_openai_v1_responses_compact;
      upstream_contract = contract_chatgpt_backend_api_codex_responses_compact;
      upstream_path = "/codex/responses/compact";
      adapter_kind = adapter_openai_responses_json;
    }
    ∷ record {
      credential = oauth;
      op_ids = op_openai_chat_completions_create ∷ [];
      bridge_id = bridge_openai_chat_completions_to_codex;
      client_contract = contract_openai_v1_chat_completions;
      upstream_contract = contract_chatgpt_backend_api_codex_responses;
      upstream_path = "/codex/responses";
      adapter_kind = adapter_chat_completions_json;
    }
    ∷ record {
      credential = oauth;
      op_ids = op_openai_models_list ∷ [];
      bridge_id = bridge_openai_models_from_codex;
      client_contract = contract_openai_v1_models;
      upstream_contract = contract_chatgpt_backend_api_codex_models;
      upstream_path = "/codex/models";
      adapter_kind = adapter_openai_models_list;
    }
    ∷ record {
      credential = oauth;
      op_ids = op_codex_native_responses_create ∷ [];
      bridge_id = bridge_codex_native_responses_direct;
      client_contract = contract_chatgpt_backend_api_codex_responses;
      upstream_contract = contract_chatgpt_backend_api_codex_responses;
      upstream_path = "/codex/responses";
      adapter_kind = adapter_codex_native;
    }
    ∷ record {
      credential = oauth;
      op_ids = op_codex_native_responses_websocket ∷ [];
      bridge_id = bridge_codex_native_responses_websocket_direct;
      client_contract = contract_chatgpt_backend_api_codex_responses_ws;
      upstream_contract = contract_chatgpt_backend_api_codex_responses_ws;
      upstream_path = "/codex/responses";
      adapter_kind = adapter_websocket_relay;
    }
    ∷ record {
      credential = oauth;
      op_ids = op_codex_native_responses_compact ∷ [];
      bridge_id = bridge_codex_native_responses_compact_direct;
      client_contract = contract_chatgpt_backend_api_codex_responses_compact;
      upstream_contract = contract_chatgpt_backend_api_codex_responses_compact;
      upstream_path = "/codex/responses/compact";
      adapter_kind = adapter_codex_native;
    }
    ∷ record {
      credential = oauth;
      op_ids = op_codex_native_models_list ∷ [];
      bridge_id = bridge_codex_native_models_direct;
      client_contract = contract_chatgpt_backend_api_codex_models;
      upstream_contract = contract_chatgpt_backend_api_codex_models;
      upstream_path = "/codex/models";
      adapter_kind = adapter_codex_native;
    }
    ∷ record {
      credential = oauth;
      op_ids = op_codex_native_transcribe ∷ [];
      bridge_id = bridge_codex_native_transcribe_direct;
      client_contract = contract_chatgpt_backend_api_transcribe;
      upstream_contract = contract_chatgpt_backend_api_transcribe;
      upstream_path = "/transcribe";
      adapter_kind = adapter_codex_native;
    }
    ∷ []

-- defaultOperationBridges
unfoldable pub default_operation_bridges : List OperationBridge
unfolding add_all add
default_operation_bridges = add_all specs

-- systemone.Bridge
abbrev pub systemone_bridge : OperationBridge
systemone_bridge = record {
  id = bridge_systemone_direct;
  op_id = op_systemone_create;
  credential = api_key;
  client_contract = contract_systemone;
  upstream_contract = contract_systemone;
  upstream_path = "";
  adapter_kind = adapter_passthrough;
}
