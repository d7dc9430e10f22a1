-- ===== src/App/Shutdown.antt =====
-- The end of the running program.
use openai_gate.Base.{
  ◌≡◌, inl, inr, true, List, [], ◌∷◌, Option, none, Bytes, bytes_eq, ok, Option-cases, Bool-cases,
}
use openai_gate.Base.Assoc.{Assoc, lookup, insert}
use openai_gate.Config.{Environment, settings}
use openai_gate.Mdbx.{Mdbx}
use openai_gate.ContextStore.Dialog.{VisitsAll}
use openai_gate.Bridge.Sessions.{Session}
use openai_gate.Bridge.Shutdown.{shutdown-lookup}
use openai_gate.Sip.Rtp.{Endpoint}
use openai_gate.Sip.Server.{Server, stop_loop, close_endpoint}
use openai_gate.Sip.Server
use openai_gate.App.{App, start}
use openai_gate.App
use openai_gate.App.Steps.{Action, run}
use openai_gate.App.Sound.{Sound, close_endpoint-Sound}
use openai_gate.App.Sessions.{run-Sound}

stop_loop-Sound :
    (m : Mdbx) (s : Server m) (ids : List Bytes)
    → Sound s.bridge
    → Sound (stop_loop m s ids).0.bridge
unfolding stop_loop
stop_loop-Sound m s [] sound = sound
stop_loop-Sound m s (id ∷ ids) sound = elim (Option-cases (lookup id s.endpoints)) [
  | inl gone ↦ rw (stop_loop, gone) (stop_loop-Sound m s ids sound)
  | inr (e, there) ↦
      let (b, told, e') = close_endpoint m s.bridge e in
      rw (stop_loop, there)
        (stop_loop-Sound m (record s { endpoints = insert id e' s.endpoints; bridge = b }) ids
          (close_endpoint-Sound m s.bridge e sound))
]

-- From `main`'s start on, whatever the program has handled: when it stops, in whichever order its
-- loops visit the endpoints and the sessions, every session included, the bridge is left without a
-- session.
pub stop-lookup :
    (m : Mdbx) (env : Environment) (opens : Bytes → Option m.Txn) (a : App m)
    (actions : List Action) (range_endpoints : Assoc Bytes Endpoint → Assoc Bytes Endpoint)
    (range_sessions : Assoc Bytes Session → Assoc Bytes Session) (id : Bytes)
    → start m env opens ≡ ok a
    → VisitsAll range_sessions
    → let stopped = App.stop m (settings env) range_endpoints range_sessions (run m a actions) in
      lookup id stopped.server.bridge.sessions ≡ none
unfolding App.stop Server.stop
stop-lookup m env opens a actions range_endpoints range_sessions id started visits =
    let before = run m a actions in
    let sound = run-Sound m env opens a actions started in
    elim (Bool-cases (settings env).enable_sip) [
      | inl sip ↦
          let server = record before.server { cancelled = true } in
          let ids = Server.keys m (range_endpoints server.endpoints) in
          let (s, told) = stop_loop m server ids in
          rw (App.stop, sip)
            ((shutdown-lookup range_sessions s.bridge id (stop_loop-Sound m server ids sound).keyed
              visits).0)
      | inr no_sip ↦
          rw (App.stop, no_sip)
            ((shutdown-lookup range_sessions before.server.bridge id sound.keyed visits).0)
    ]
