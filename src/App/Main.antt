-- ===== src/App/Main.antt =====
-- cmd/openai-gate/main.go: `main` as a whole, from its settings to its end. What its servers handle until
-- a signal or an error of a server ends the wait are the actions of App/Steps.antt.
use openai_gate.Base.{
  ◌≡◌, ◌≢◌, ◌↔◌, Bool, true, List, [], ◌∷◌, ◌++◌, Option, none, some, Bytes, bytes_eq, codes,
  Result, ok, err, if◌then◌else◌,
}
use openai_gate.Base.Assoc.{Assoc, lookup}
use openai_gate.Base.Membership.{In}
use openai_gate.Text.Decimal.Int.{ℤ}
use openai_gate.Config.{Environment, Settings, settings}
use openai_gate.Mdbx.{Mdbx}
use openai_gate.Bridge.Sessions.{Session}
use openai_gate.Sip.Rtp.{Endpoint}
use openai_gate.App.{App, StartError, api_key_required, no_context_store, start, stop}
use openai_gate.App.Steps.{Action, run}

-- The servers, each with what it listens on.
pub data Service : Type 0 where
  context_api : ℤ → Service
  sip_server : Bytes → Bytes → ℤ → Service
  web_server : ℤ → Service

abbrev only_if : Bool → Service → List Service
only_if enabled x = if enabled then x ∷ [] else []

-- The servers that `main` starts, in its order, each in a goroutine of its own; the first error that one
-- of them returns ends the wait, as a signal does.
unfoldable pub services : Settings → List Service
services c =
    only_if c.enable_context_api (context_api c.context_api_port)
    ++ (only_if c.enable_sip (sip_server c.sip_host c.sip_public_host c.sip_port)
        ++ only_if c.enable_web (web_server c.http_port))

module _ (m : Mdbx) where
  -- How the program ends: by a fatal error before it serves, after a complete shutdown, or when the
  -- shutdown takes longer than ten seconds.
  pub data Exit : Type 0 where
    fatal : StartError → Exit
    stopped : List Service → App m → Exit
    forced : List Service → Exit

  module _ (range_endpoints : Assoc Bytes Endpoint → Assoc Bytes Endpoint)
      (range_sessions : Assoc Bytes Session → Assoc Bytes Session) where
    served : Settings → List Action → Bool → Result StartError (App m) → Exit
    served c actions in_time (err e) = fatal e
    served c actions in_time (ok a) =
        if in_time
        then stopped (services c) (stop m c range_endpoints range_sessions (run m a actions))
        else forced (services c)

    -- `in_time` is whether the shutdown is complete within its ten seconds.
    unfoldable pub main : Environment → (Bytes → Option m.Txn) → List Action → Bool → Exit
    unfolding served
    main env opens actions in_time = served (settings env) actions in_time (start m env opens)

-- The servers that the settings ask for.
abbrev pub IsEnabled : Settings → Service → Type 0
IsEnabled c (context_api port) = (c.enable_context_api ≡ true) × (port ≡ c.context_api_port)
IsEnabled c (sip_server host public port) =
    (c.enable_sip ≡ true) × (host ≡ c.sip_host) × (public ≡ c.sip_public_host) × (port ≡ c.sip_port)
IsEnabled c (web_server port) = (c.enable_web ≡ true) × (port ≡ c.http_port)

-- The store of the data directory opens.
abbrev pub HasStore : (m : Mdbx) → Environment → (Bytes → Option m.Txn) → Type 0
HasStore m env opens =
    (db : m.Txn) × (opens ((settings env).data_dir ++ codes "/contexts.db") ≡ some db)

-- What a way to end tells of the environment and of what is left.
abbrev pub EndsRightly : (m : Mdbx) → Environment → (Bytes → Option m.Txn) → Exit m → Type 0
EndsRightly m env opens (fatal api_key_required) = (settings env).api_key ≡ []
EndsRightly m env opens (fatal no_context_store) =
    ((settings env).api_key ≢ []) × (opens ((settings env).data_dir ++ codes "/contexts.db") ≡ none)
EndsRightly m env opens (stopped ss a) =
    ((settings env).api_key ≢ [])
    × HasStore m env opens
    × ((x : Service) → In x ss ↔ IsEnabled (settings env) x)
    × ((id : Bytes) → lookup id a.server.bridge.sessions ≡ none)
EndsRightly m env opens (forced ss) =
    ((settings env).api_key ≢ [])
    × HasStore m env opens
    × ((x : Service) → In x ss ↔ IsEnabled (settings env) x)
