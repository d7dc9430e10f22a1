-- ===== src/Bridge/Shutdown.antt =====
-- `Shutdown` of internal/bridge/bridge.go: it leaves no session.
use openai_gate.Base.{
  ◌≡◌, ap, inl, inr, true, List, [], ◌∷◌, ◌++◌, none, some, arith, Bytes, bytes_eq, bytes_beq_iff,
  subst, Option-cases,
}
use openai_gate.Base.Assoc.{Assoc, lookup, lookup-remove}
use openai_gate.Base.Membership.{In, lookup-In}
use openai_gate.ContextStore.Dialog.{VisitsAll}
use openai_gate.Bridge.{Bridge, remove_session, end_found, shutdown, shutdown_loop, values}
use openai_gate.Bridge.Sessions.{Session, Notice, ended, bridge_shutdown, notify_end}

remove_session-none :
    (b : Bridge) (id other : Bytes)
    → lookup other b.sessions ≡ none
    → lookup other (remove_session b id).bridge.sessions ≡ none
unfolding remove_session end_found
remove_session-none b id other h = ground (arith, lookup-remove id other b.sessions)

remove_session-gone :
    (b : Bridge) (id : Bytes) → lookup id (remove_session b id).bridge.sessions ≡ none
unfolding remove_session end_found
remove_session-gone b id = ground (arith, lookup-remove id id b.sessions, bytes_beq_iff id id)

shutdown_loop-none :
    (b : Bridge) (xs : List Session) (id : Bytes)
    → lookup id b.sessions ≡ none
    → lookup id (shutdown_loop b xs).0.sessions ≡ none
unfolding shutdown_loop
shutdown_loop-none b [] id h = h
shutdown_loop-none b (x ∷ xs) id h =
    shutdown_loop-none (remove_session b x.id).bridge xs id (remove_session-none b x.id id h)

shutdown_loop-In :
    (b : Bridge) (xs : List Session) (x : Session)
    → In x xs
    → lookup x.id (shutdown_loop b xs).0.sessions ≡ none
unfolding shutdown_loop
shutdown_loop-In b [] x h = absurd h
shutdown_loop-In b (y ∷ xs) x (inl e) =
    shutdown_loop-none (remove_session b y.id).bridge xs x.id (rw e (remove_session-gone b y.id))
shutdown_loop-In b (y ∷ xs) x (inr h) = shutdown_loop-In (remove_session b y.id).bridge xs x h

In-values : (k : Bytes) (x : Session) (xs : Assoc Bytes Session) → In (k, x) xs → In x (values xs)
In-values k x [] h = absurd h
In-values k x ((j, y) ∷ xs) (inl e) = inl (ap (λ (z : Bytes × Session). z.1) e)
In-values k x ((j, y) ∷ xs) (inr h) = inr (In-values k x xs h)

remove_session-hooks : (b : Bridge) (id : Bytes) → (remove_session b id).bridge.hooks ≡ b.hooks
unfolding remove_session end_found
remove_session-hooks b id = ground arith

In-append : (xs ys : List Notice) (n : Notice) → In n ys → In n (xs ++ ys)
In-append [] ys n h = h
In-append (x ∷ xs) ys n h = inr (In-append xs ys n h)

shutdown_loop-notices :
    (b : Bridge) (xs : List Session) (x : Session)
    → b.hooks.session_end ≡ true
    → In x xs
    → In (ended x.id bridge_shutdown) (shutdown_loop b xs).1
unfolding shutdown_loop notify_end
shutdown_loop-notices b [] x on h = absurd h
shutdown_loop-notices b (y ∷ xs) x on (inl e) =
    rw on (inl (ap (λ (z : Session). ended z.id bridge_shutdown) e))
shutdown_loop-notices b (y ∷ xs) x on (inr h) =
    let b' = (remove_session b y.id).bridge in
    let later = shutdown_loop-notices b' xs x (ground (arith, remove_session-hooks b y.id)) h in
    let told = notify_end b.hooks y bridge_shutdown in
    let gone = (remove_session b y.id).notices in
    In-append told (gone ++ (shutdown_loop b' xs).1) (ended x.id bridge_shutdown)
      (In-append gone (shutdown_loop b' xs).1 (ended x.id bridge_shutdown) later)

-- When every session stands under its own id and the loop visits every session, the bridge has none
-- after `Shutdown`; if the end handler is set, the end of each session that it had is reported as a
-- shutdown.
pub shutdown-lookup :
    (range : Assoc Bytes Session → Assoc Bytes Session) (b : Bridge) (id : Bytes)
    → ((k : Bytes) (x : Session) → lookup k b.sessions ≡ some x → x.id ≡ k)
    → VisitsAll range
    → let (b', told) = shutdown range b in
      (lookup id b'.sessions ≡ none)
      × ((x : Session)
          → b.hooks.session_end ≡ true
          → lookup id b.sessions ≡ some x
          → In (ended id bridge_shutdown) told)
unfolding shutdown
shutdown-lookup range b id keyed visits =
    let loop = shutdown_loop b (values (range b.sessions)) in
    let visited : (x : Session) → lookup id b.sessions ≡ some x → In x (values (range b.sessions)) =
      λ x there.
        In-values id x (range b.sessions)
          ((visits b.sessions (id, x)).1 (lookup-In id x b.sessions there)) in
    (
      elim (Option-cases (lookup id b.sessions)) [
        | inl fresh ↦ shutdown_loop-none b (values (range b.sessions)) id fresh
        | inr (x, there) ↦
            subst (λ k. lookup k loop.0.sessions ≡ none) (keyed id x there)
              (shutdown_loop-In b (values (range b.sessions)) x (visited x there))
      ],
      λ x on there.
          subst (λ k. In (ended k bridge_shutdown) loop.1) (keyed id x there)
            (shutdown_loop-notices b (values (range b.sessions)) x on (visited x there)),
    )
