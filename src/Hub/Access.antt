-- ===== src/Hub/Access.antt =====
-- What the token checks of serviceAuth.ts and adminAuth.ts establish.
use mathlib.Core.List.{Memᴰ}
use faf_hackathon_challenge.Prelude.{
  String, true, false, ◌≡◌, refl, ◌≢◌, ◌↔◌, Option, none, some, List, [], ◌∷◌, arith, ◌⊎◌, eq_iff,
  eq_refl, All, Bool-cases, inl, inr,
}
use faf_hackathon_challenge.Hub.ServiceAuth.{
  Request, Env, ServiceIdentity, ServiceEntry, service_registry, extract_token, is_configured,
  find_service, identify_service, require_admin,
}

is_configured→eq :
    (o : Option String) (token : String)
    → is_configured o token ≡ true
    → (o ≡ some token) × (token ≢ "")
is_configured→eq none token h = cc
is_configured→eq (some s) token h = ground (arith, eq_iff s "", eq_iff token s)

-- The identity that the loop over the registry returns, and the entry that it stands for.
pub record Granted (env : Env) (token : String) (es : List ServiceEntry) (i : ServiceIdentity)
    : Type 0 where
  pub entry : ServiceEntry
  pub listed : Memᴰ entry es
  pub name : i.name ≡ entry.name
  pub channels : i.allowed_channels ≡ entry.allowed_channels
  pub configured : env entry.env_var ≡ some token
  pub nonempty : token ≢ ""

module _ (env : Env) (token : String) where
  find_service-Granted :
      (es : List ServiceEntry) (i : ServiceIdentity)
      → find_service env token es ≡ some i
      → Granted env token es i
  unfolding find_service
  find_service-Granted [] i h = cc
  find_service-Granted (e ∷ es) i h = elim (Bool-cases (is_configured (env e.env_var) token)) [
    | inl yes_it_is ↦ record {
      entry = e;
      listed = Memᴰ.head refl;
      name = ground arith;
      channels = ground arith;
      configured = (is_configured→eq (env e.env_var) token yes_it_is).0;
      nonempty = (is_configured→eq (env e.env_var) token yes_it_is).1;
    }
    | inr other ↦
        let g = find_service-Granted es i (ground arith) in
        record {
          entry = g.entry;
          listed = Memᴰ.tail g.listed;
          name = g.name;
          channels = g.channels;
          configured = g.configured;
          nonempty = g.nonempty;
        }
  ]

  find_service-eq-none :
      (es : List ServiceEntry)
      → find_service env token es ≡ none
      → All (λ e. is_configured (env e.env_var) token ≡ false) es
  unfolding find_service
  find_service-eq-none [] h = tt
  find_service-eq-none (e ∷ es) h = elim (Bool-cases (is_configured (env e.env_var) token)) [
    | inl it_is ↦ ground arith
    | inr other ↦ (other, find_service-eq-none es (ground arith))
  ]

-- A request that is identified carries a nonempty token, and is the service of a registry entry
-- whose environment variable holds that very token; its channels are those of the entry.
pub identify_service-Granted :
    (env : Env) (req : Request) (i : ServiceIdentity)
    → identify_service env req ≡ some i
    → (token : String) × (extract_token req ≡ some token) × Granted env token service_registry i
unfolding identify_service
identify_service-Granted env req i h = go (extract_token req) refl
  where
    go :
        (o : Option String)
        → extract_token req ≡ o
        → (token : String) × (extract_token req ≡ some token) × Granted env token service_registry i
    go none e = ground arith
    go (some token) e = (token, e, find_service-Granted env token service_registry i (ground arith))

-- The hub fails closed: it refuses a request with no token or an empty one, and else only a token
-- that no registry entry is configured with.
identify_service-eq-none :
    (env : Env) (req : Request) (token : String)
    → identify_service env req ≡ none
    → extract_token req ≡ some token
    → token ≢ ""
    → All (λ e. is_configured (env e.env_var) token ≡ false) service_registry
unfolding identify_service
identify_service-eq-none env req token h e ne =
    find_service-eq-none env token service_registry (ground (arith, eq_iff token ""))

pub identify_service_closed :
    (env : Env) (req : Request)
    → (extract_token req ≡ none) ⊎ (extract_token req ≡ some "")
    → identify_service env req ≡ none
unfolding identify_service
identify_service_closed env req h = ground arith

-- An administrator's request passes exactly when a nonempty passcode is configured and the header
-- gives that same passcode.
pub require_admin_iff :
    (env : Env) (req : Request)
    → (require_admin env req ≡ true) ↔ (
        (passcode : String) × (env "ADMIN_PASSCODE" ≡ some passcode)
        × (req.header "X-Admin-Passcode" ≡ some passcode)
        × (passcode ≢ ""))
unfolding require_admin
require_admin_iff env req = (
  admit (env "ADMIN_PASSCODE") (req.header "X-Admin-Passcode") refl refl,
  λ (p, e, f, ne). ground (arith, eq_iff p "", eq_refl p),
)
  where
    admit :
        (o q : Option String)
        → env "ADMIN_PASSCODE" ≡ o
        → req.header "X-Admin-Passcode" ≡ q
        → require_admin env req ≡ true
        → (passcode : String) × (env "ADMIN_PASSCODE" ≡ some passcode)
          × (req.header "X-Admin-Passcode" ≡ some passcode)
          × (passcode ≢ "")
    admit none q e f h = ground arith
    admit (some c) none e f h = ground arith
    admit (some c) (some p) e f h = (c, e, ground (arith, eq_iff p c), ground (arith, eq_iff c ""))
