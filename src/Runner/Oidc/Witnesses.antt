-- ===== src/Runner/Oidc/Witnesses.antt =====
-- The theorems on the client of the identity provider, with a provider that has one key.
use pytest_hardware_template.Prelude.{
  List, ◌+◌, ◌≤◌, String, some, [], ◌∷◌, ◌≡◌, refl, lookup, Dict,
}
use pytest_hardware_template.Agent.Protocol.{str}
use pytest_hardware_template.Runner.Oidc.Samples.{settings, network, jwt, claims}
use pytest_hardware_template.Runner.Oidc.Calls.{OidcClient, new_client, missing, sent_count, ◌>>=◌}
use pytest_hardware_template.Runner.Oidc.{Network, verify_id_token, verify_access_token}
use pytest_hardware_template.Runner.Oidc.Secure.{IsSecure}
use pytest_hardware_template.Runner.Oidc.Requests.{
  Operation, verifying_id, leaving, run, run-IsSecure,
}
use pytest_hardware_template.Runner.Oidc.Budget.{verify_access_token-sent_count}
use pytest_hardware_template.Runner.Oidc.Trusted.{IsVerified, verify_id_token-IsVerified}

abbrev urlencode : Dict String → String
urlencode form = "form"

-- The network when the key set that was loaded has expired.
abbrev later : Network
later = record network { clock = λ force before. 100000 }

abbrev history : List (Network × Operation)
history =
    (network, verifying_id "t" "n") ∷ (later, verifying_id "t" "n") ∷ (later, leaving "/login") ∷ []

run-IsSecure_example : IsSecure settings (run settings jwt urlencode history new_client)
run-IsSecure_example = run-IsSecure settings jwt urlencode history

verify_access_token-sent_count_example :
    sent_count (verify_access_token network settings jwt "t" new_client).0
    ≤ sent_count new_client + missing new_client.endpoints + 2
verify_access_token-sent_count_example =
    verify_access_token-sent_count network settings jwt "t" new_client

abbrev signed_in : OidcClient
signed_in = (verify_id_token network settings jwt "t" "n" new_client).0

verify_id_token-IsVerified_example :
    (audience : String) × (settings.oidc_client_id ≡ some audience)
    × (lookup "nonce" claims ≡ some (str "n"))
    × IsVerified settings jwt "t" audience signed_in claims
unfolding verify_id_token ◌>>=◌
verify_id_token-IsVerified_example =
    verify_id_token-IsVerified network settings jwt "t" "n" new_client signed_in claims refl
