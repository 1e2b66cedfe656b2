-- ===== src/Runner/Auth/Roles.antt =====
-- helpers/test-runner-service/src/test_runner_service/auth.py: principals, requests, and the roles that
-- they have and need; with `token_roles` of oidc.py.
use pytest_hardware_template.Prelude.{
  String, Bool, true, Option, none, some, List, [], ◌∷◌, ◌++◌, ◌||◌, ◌&&◌, ◌==◌, if◌then◌else◌,
  elem, has_prefix, lookup, Dict,
}
use pytest_hardware_template.Agent.Protocol.{
  ℤ, Json, str, arr, obj, null, Items, nil, cons, to_dict,
}
use pytest_hardware_template.Runner.Settings.{Settings}

pub record Principal : Type 0 where
  pub subject : String
  pub username : Option String
  pub roles : List String
  pub method : String
  pub expires_at : Option ℤ

-- A request: the kind of connection, the path, the method, and two headers, empty where absent.
pub record Scope : Type 0 where
  pub type : String
  pub path : String
  pub method : String
  pub authorization : String
  pub cookie : String

abbrev pub public_paths : List String
public_paths =
    "/health" ∷ "/login" ∷ "/auth/status" ∷ "/auth/login" ∷ "/auth/callback" ∷ "/auth/logout" ∷ []

abbrev pub ui_pages : List String
ui_pages = "/" ∷ "/artifact-runs" ∷ []

abbrev pub both_roles : List String
both_roles = "viewer" ∷ "operator" ∷ []

abbrev pub disabled_principal : Principal
disabled_principal = record {
  subject = "anonymous";
  username = none;
  roles = both_roles;
  method = "disabled";
  expires_at = none;
}

abbrev pub local_api_principal : Principal
local_api_principal = record {
  subject = "local-api-token";
  username = none;
  roles = both_roles;
  method = "api_token";
  expires_at = none;
}

-- `[item for item in items if isinstance(item, str)]`
unfoldable pub string_items : Items → List String
string_items nil = []
string_items (cons (str s) items) = s ∷ string_items items
string_items (cons _ items) = string_items items

unfoldable pub required_role : Scope → String
unfolding has_prefix
required_role scope =
    if has_prefix scope.path "/v1/" && elem scope.method ("POST" ∷ "PUT" ∷ "PATCH" ∷ "DELETE" ∷ [])
    then "operator"
    else "viewer"

unfoldable pub has_role : Principal → String → Settings → Bool
has_role principal role settings =
    if elem principal.method ("disabled" ∷ "local" ∷ "api_token" ∷ [])
    then true
    else if role == "operator"
    then elem settings.oidc_operator_role principal.roles
    else elem settings.oidc_viewer_role principal.roles
      || elem settings.oidc_operator_role principal.roles

-- `token_roles` of oidc.py: the texts of `roles` in an object, if it is one
abbrev pub roles_in : Option Json → List String
roles_in (some (obj fields)) = elim (lookup "roles" (to_dict fields)) [
  | some (arr items) ↦ string_items items
  | _ ↦ []
]
roles_in _ = []

abbrev pub entry : String → Option Json → Option Json
entry name (some (obj fields)) = lookup name (to_dict fields)
entry name _ = none

unfoldable pub token_roles : Dict Json → String → List String
unfolding string_items to_dict lookup
token_roles claims client_id =
    roles_in (lookup "realm_access" claims)
    ++ roles_in (entry client_id (lookup "resource_access" claims))

-- `str(value) if value is not None else None`
abbrev pub optional_text : (Json → String) → Option Json → Option String
optional_text to_text none = none
optional_text to_text (some null) = none
optional_text to_text (some v) = some (to_text v)
