-- ===== src/Neutron/Client.antt =====
-- pkg/neutron/client.go: NewClient, over the package openstack of gophercloud, which authenticates
-- in a world `W`. Options have the fields that the program sets; `Rest` is what else they hold.
use mathlib.Core.Path.{subst}
use rubble.Prelude.{ℕ, String, Bool, true, false, ◌≡◌, sym, ap, ◌∙◌, Option, some, List, []}
use rubble.Prelude.Run.{Result, success, ok}
use rubble.Prelude.Call.{Call, ◌>>=◌, run, ask, give}
use rubble.Prelude.Outcomes.{and_then-success, asked-success, ran-success, gave-success}

pub record AuthOptions (Rest : Type 0) : Type 0 where
  pub tenant_name : String
  pub scope : Option String
  pub rest : Rest

-- ProviderClient: its token, its time limit in seconds, and the options that its ReauthFunc has
-- captured.
pub record ProviderClient (Rest Token : Type 0) : Type 0 where
  pub token : Token
  pub timeout : ℕ
  pub reauth_options : AuthOptions Rest

-- The calls of openstack; `domain_name` is that of the environment.
pub record Openstack (W Rest Token Service : Type 0) : Type 0 where
  pub auth_options_from_env : Result (AuthOptions Rest)
  pub domain_name : String
  pub authenticated_client : AuthOptions Rest → W → Result Token × W
  pub new_network_v2 : ProviderClient Rest Token → Result Service
  pub new_identity_v3 : ProviderClient Rest Token → Result Service

pub record Client (Service : Type 0) : Type 0 where
  pub network_cli_v2 : Service
  pub identity_cli_v3 : Service
  pub port_ids : List (String × String)

-- The options for a token of the domain instead of the project.
unfoldable pub scoped : {Rest : Type 0} → String → Bool → AuthOptions Rest → AuthOptions Rest
scoped domain_name true opt = record opt { tenant_name = ""; scope = some domain_name }
scoped domain_name false opt = opt

module _ {W Rest Token Service : Type 0} (openstack : Openstack W Rest Token Service) where
  unfoldable pub new_provider_client_or_die : Bool → Call W (ProviderClient Rest Token)
  new_provider_client_or_die domain_scope = do
    from_env ← ask (λ w. openstack.auth_options_from_env)
    let opt : AuthOptions Rest = scoped openstack.domain_name domain_scope from_env
    token ← run (openstack.authenticated_client opt)
    give (record { token = token; timeout = 60; reauth_options = opt })

  -- The ReauthFunc of a provider.
  unfoldable pub reauth : ProviderClient Rest Token → Call W (ProviderClient Rest Token)
  reauth p = do
    token ← run (openstack.authenticated_client p.reauth_options)
    give (record p { token = token })

  unfoldable pub new_client : Call W (Client Service)
  new_client = do
    provider ← new_provider_client_or_die false
    domain_token_provider ← new_provider_client_or_die true
    net_v2 ← ask (λ w. openstack.new_network_v2 provider)
    iden_v3 ← ask (λ w. openstack.new_identity_v3 domain_token_provider)
    give (record { network_cli_v2 = net_v2; identity_cli_v3 = iden_v3; port_ids = [] })

  -- The provider `p` came out of an authentication with these options.
  abbrev pub Authenticated : AuthOptions Rest → ProviderClient Rest Token → Type 0
  Authenticated opt p =
      (before : W) × (after : W) × (openstack.authenticated_client opt before
        ≡ (success p.token, after))
      × (p.reauth_options ≡ opt)

  provider-Authenticated :
      (domain_scope : Bool) (p : ProviderClient Rest Token) (w v : W)
      → new_provider_client_or_die domain_scope w ≡ ok (success p, v)
      → (opt : AuthOptions Rest) × (openstack.auth_options_from_env ≡ success opt)
        × Authenticated (scoped openstack.domain_name domain_scope opt) p
  unfolding new_provider_client_or_die
  provider-Authenticated domain_scope p w v h =
      let (opt, w₁, asked, h₁) = and_then-success h in
      let (token, w₂, ran, h₂) = and_then-success h₁ in
      let (same, _) = gave-success h₂ in
      let tok : token ≡ p.token = ap (λ (q : ProviderClient Rest Token). q.token) same in
      (
        opt,
        (asked-success asked).0,
        (
          w₁,
          w₂,
          ran-success ran ∙ ap (λ t. (success t, w₂)) tok,
          sym (ap (λ (q : ProviderClient Rest Token). q.reauth_options) same),
        ),
      )

  -- The service `s` was made of a provider that these options authenticate, at once and again.
  abbrev pub MadeFor :
      (ProviderClient Rest Token → Result Service) → AuthOptions Rest → Service → Type 0
  MadeFor make opt s = (p : ProviderClient Rest Token) × Authenticated opt p × (make p ≡ success s)

  -- A client that NewClient answers speaks to the network service with the options of the
  -- environment, and to the identity service with a token of the domain.
  pub new_client-MadeFor :
      (c : Client Service) (w v : W)
      → new_client w ≡ ok (success c, v)
      → (opt : AuthOptions Rest) × (openstack.auth_options_from_env ≡ success opt)
        × (MadeFor openstack.new_network_v2 opt c.network_cli_v2
            × MadeFor openstack.new_identity_v3
                (record opt { tenant_name = ""; scope = some openstack.domain_name })
                c.identity_cli_v3)
  unfolding new_client scoped
  new_client-MadeFor c w v h =
      let (p, w₁, first, h₁) = and_then-success h in
      let (d, w₂, second, h₂) = and_then-success h₁ in
      let (net, w₃, made, h₃) = and_then-success h₂ in
      let (iden, w₄, made', h₄) = and_then-success h₃ in
      let (same, _) = gave-success h₄ in
      let (opt, env, auth) = provider-Authenticated false p w w₁ first in
      let (opt', env', auth') = provider-Authenticated true d w₁ w₂ second in
      let one_env : opt' ≡ opt = cc in
      let identity : MadeFor openstack.new_identity_v3 (scoped openstack.domain_name true opt)
          iden =
        subst (λ o. MadeFor openstack.new_identity_v3 (scoped openstack.domain_name true o) iden)
          one_env (d, auth', (asked-success made').0) in
      (
        opt,
        env,
        subst
            (λ (c : Client Service).
              MadeFor openstack.new_network_v2 opt c.network_cli_v2
              × MadeFor openstack.new_identity_v3 (scoped openstack.domain_name true opt)
                  c.identity_cli_v3)
            same ((p, auth, (asked-success made).0), identity),
      )
