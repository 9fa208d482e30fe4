-- ===== src/Dispatcher/Entries.antt =====
-- container_service_extension/server/request_dispatcher.py: what an entry of the dispatcher's table
-- holds. An entry's verbs, and the tuples of API versions below a verb, are dictionaries that the
-- code walks in the order in which they are written.
use container_service_extens.Common.{Bool, false, String, Option, none, some, List, [], ◌∷◌}
use container_service_extens.Common.Text.{split}
use container_service_extens.Dispatcher.Operations.{Operation}

-- `RequestMethod`
pub data Method : Type 0 where
  get head post put delete connect options trace : Method

-- A function of a module of request handlers.
pub data Handler : Type 0 where
  handler : String → String → Handler

pub record Rule : Type 0 where
  pub allowed_params : List String
  pub required_params : List String
  pub verify_payload : Option Bool
  pub payload_type : Option String
  pub operation : Operation
  pub target : Handler
  pub feature_flags : List String

-- The rules of a verb, by the API versions that each serves.
abbrev pub Versions : Type 0
Versions = List (List String × Rule)

pub record Entry : Type 0 where
  pub url_tokens : List String
  pub methods : List (Method × Versions)

-- An entry with the tokens of its url, `url_entry['url'].split('/')`.
unfoldable pub entry : String → List (Method × Versions) → Entry
entry url ms = record { url_tokens = split b'/' url; methods = ms }

-- A rule for a request without a body.
unfoldable pub read : List String → List String → Operation → String → String → List String → Rule
read allowed required op module_name function_name flags = record {
  allowed_params = allowed;
  required_params = required;
  verify_payload = none;
  payload_type = none;
  operation = op;
  target = handler module_name function_name;
  feature_flags = flags;
}

-- A rule for a request with a body, which has `'verify_payload': False, 'payload_type': '*'`.
unfoldable pub write : List String → Operation → String → String → List String → Rule
write allowed op module_name function_name flags = record {
  allowed_params = allowed;
  required_params = [];
  verify_payload = some false;
  payload_type = some "*";
  operation = op;
  target = handler module_name function_name;
  feature_flags = flags;
}

abbrev pub supported_vcd_api_versions : List String
supported_vcd_api_versions = "33.0" ∷ "34.0" ∷ "35.0" ∷ "36.0" ∷ []
