-- ===== src/Runner/Oidc/Samples.antt =====
-- A sample identity provider with one key, for the examples.
use pytest_hardware_template.Prelude.{String, some, [], ◌∷◌, Dict}
use pytest_hardware_template.Agent.Protocol.{Json, str, arr, obj, nil, cons, end, field}
use pytest_hardware_template.Runner.Settings.{Settings, HttpUrl}
use pytest_hardware_template.Runner.Samples
use pytest_hardware_template.Runner.Oidc.{Network, Jwt}

abbrev pub provider : HttpUrl
provider = record {
  scheme = "https";
  host = some "id";
  username = "";
  password = "";
  query = "";
  fragment = "";
  text = "https://id/";
}

abbrev pub settings : Settings
settings = record Samples.settings {
  oidc_issuer = some provider;
  oidc_client_id = some "runner";
  oidc_client_secret = some "secret";
  oidc_audience = some "api";
  public_url = some provider;
}

abbrev pub document : Json
document = obj (
    field "issuer" (str "https://id") (
      field "authorization_endpoint" (str "https://id/authorize") (
        field "token_endpoint" (str "https://id/token") (
          field "jwks_uri" (str "https://id/keys") (
            field "keys" (arr (cons (obj (field "kid" (str "k1") end)) nil))
              (field "id_token" (str "t") end))))))

-- One document answers every request.
abbrev pub network : Network
network = record { answer = λ before request. some document; clock = λ force before. 0 }

abbrev pub claims : Dict Json
claims =
    ("nonce", str "n")
    ∷ ("sub", str "user")
    ∷ ("realm_access", obj (field "roles" (arr (cons (str "viewer") nil)) end))
    ∷ []

abbrev pub jwt : Jwt String
jwt = record {
  get_unverified_header = λ token. some (("alg", str "RS256") ∷ ("kid", str "k1") ∷ []);
  from_dict = λ key algorithm. some "key";
  decode = λ token key algorithms audience issuer leeway required. some claims;
}
