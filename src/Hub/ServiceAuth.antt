-- ===== src/Hub/ServiceAuth.antt =====
-- services/broadcast/src/serviceAuth.ts and adminAuth.ts: who may listen, and who may announce.
use faf_hackathon_challenge.Prelude.{
  String, Bool, false, ◌&&◌, Option, none, some, List, [], ◌∷◌, if◌then◌else◌, str_eq, truthy,
}
use faf_hackathon_challenge.Values.{Value, as_string}
use faf_hackathon_challenge.Values.Text.{strip_prefix, trim}
use faf_hackathon_challenge.Hub.Types.{ChannelId, all_channels}

-- What the handlers read of Express's request: `req.header`, `req.query.token` and `req.body`.
pub record Request : Type 0 where
  pub header : String → Option String
  pub query_token : Value
  pub body : Value

-- `process.env`
abbrev pub Env : Type 0
Env = String → Option String

pub record ServiceIdentity : Type 0 where
  pub name : String
  pub allowed_channels : List ChannelId

pub record ServiceEntry : Type 0 where
  pub name : String
  pub env_var : String
  pub allowed_channels : List ChannelId

abbrev pub service_registry : List ServiceEntry
service_registry =
    record { name = "frontend"; env_var = "FE_TOKEN"; allowed_channels = all_channels }
    ∷ record { name = "hotel"; env_var = "HOTEL_TOKEN"; allowed_channels = [] }
    ∷ record { name = "beach"; env_var = "BEACH_TOKEN"; allowed_channels = ChannelId.hotel ∷ [] }
    ∷ record { name = "airport"; env_var = "AIRPORT_TOKEN"; allowed_channels = [] }
    ∷ record { name = "parrot"; env_var = "PARROT_TOKEN"; allowed_channels = [] }
    ∷ []

-- The two fallbacks of `extractToken` behind the bearer token.
fallback_token : Request → Option String
fallback_token req = elim (req.header "x-service-token") [
  | none ↦ as_string req.query_token
  | some token ↦ if truthy token then some token else as_string req.query_token
]

unfoldable pub extract_token : Request → Option String
unfolding fallback_token
extract_token req = elim (req.header "authorization") [
  | none ↦ fallback_token req
  | some auth ↦ elim (strip_prefix "Bearer " auth) [
    | none ↦ fallback_token req
    | some rest ↦ some (trim rest)
  ]
]

-- `configured && token === configured`
abbrev pub is_configured : Option String → String → Bool
is_configured none token = false
is_configured (some configured) token = truthy configured && str_eq token configured

-- The loop over the registry.
unfoldable pub find_service : Env → String → List ServiceEntry → Option ServiceIdentity
find_service env token [] = none
find_service env token (e ∷ es) =
    let rest = find_service env token es in
    if is_configured (env e.env_var) token
    then some (record { name = e.name; allowed_channels = e.allowed_channels })
    else rest

unfoldable pub identify_service : Env → Request → Option ServiceIdentity
unfolding find_service
identify_service env req = elim (extract_token req) [
  | none ↦ none
  | some token ↦ if truthy token then find_service env token service_registry else none
]

-- The test of `requireAdmin`: true if the request is let through.
unfoldable pub require_admin : Env → Request → Bool
require_admin env req = elim (env "ADMIN_PASSCODE") [
  | none ↦ false
  | some configured ↦ elim (req.header "X-Admin-Passcode") [
    | none ↦ false
    | some provided ↦ truthy configured && truthy provided && str_eq provided configured
  ]
]
