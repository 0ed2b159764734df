-- ===== src/Sdk/Adapter/Invariant.antt =====
-- What every sequence of requests and stops leaves true of the shared state.
use action_kit.Sdk.Adapter.SoundState.{IsSound}
use action_kit.Prelude.{◌≡◌, refl, Option, some, List, [], Text, arith}
use action_kit.Sdk.State.{ExecutionId, Sdk}
use action_kit.Sdk.Adapter.{
  Env, Action, Request, Write, handle_prepare, handle_start, handle_status, handle_stop,
  stop_action,
}
use action_kit.Sdk.Adapter.Sound.{
  IsSound-handle_prepare, IsSound-handle_start, IsSound-handle_status, Ends-elim, Ends-handle_stop,
  Ends-stop_action,
}

-- One request to an action that is served, or one stop of an execution by the extension.
pub data Step {J : Type 0} (env : Env) (registered : Text → Option (Action J))
    : Sdk J → Sdk J → Type 1 where
  step_prepare :
      (a : Action J) (r : Option (Request J)) (s : Sdk J)
      → Step env registered s (handle_prepare env a r s).0
  step_start :
      (a : Action J) (r : Option (Request J)) (s : Sdk J)
      → Step env registered s (handle_start env a r s).0
  step_status :
      (a : Action J) (r : Option (Request J)) (s : Sdk J)
      → Step env registered s (handle_status env a r s).0
  step_stop :
      (a : Action J) (r : Option (Request J)) (s t : Sdk J) (ws : List (Write J))
      → handle_stop env a r s ≡ some (t, ws)
      → Step env registered s t
  step_stop_action :
      (id : ExecutionId) (reason : Text) (s t : Sdk J)
      → stop_action registered id reason s ≡ some t
      → Step env registered s t

-- the states of the SDK after a sequence of steps from its start
pub data Reachable {J : Type 0} (env : Env) (registered : Text → Option (Action J))
    : Sdk J → Type 1 where
  initially : Reachable env registered (record {
    persisted = [];
    stop_events = [];
    monitors = [];
    running = [];
    next_serial = 0;
    heartbeats = [];
    calls = [];
  })
  then :
      (s t : Sdk J)
      → Reachable env registered s
      → Step env registered s t
      → Reachable env registered t

module _ {J : Type 0} where
  IsSound-Step :
      (env : Env) (registered : Text → Option (Action J)) (s t : Sdk J)
      → Step env registered s t
      → IsSound s
      → IsSound t
  IsSound-Step env registered s _ (step_prepare a r _) h = IsSound-handle_prepare env a r s h
  IsSound-Step env registered s _ (step_start a r _) h = IsSound-handle_start env a r s h
  IsSound-Step env registered s _ (step_status a r _) h = IsSound-handle_status env a r s h
  IsSound-Step env registered s t (step_stop a r _ _ ws e) h =
      Ends-elim (λ p. p.0) (handle_stop env a r s) (t, ws) e (Ends-handle_stop env a r s h)
  IsSound-Step env registered s t (step_stop_action id reason _ _ e) h =
      Ends-elim (λ u. u) (stop_action registered id reason s) t e
        (Ends-stop_action registered id reason s h)

  -- In every state that requests and stops reach from the start of the SDK, in any order and for
  -- any actions, the running heartbeat monitors are exactly those of the map, each under its own
  -- execution, and at most 101 stop events are kept.
  pub Reachable-IsSound :
      (env : Env) (registered : Text → Option (Action J)) (s : Sdk J)
      → Reachable env registered s
      → IsSound s
  Reachable-IsSound env registered _ initially = record {
    no_leak = record { running_eq = refl; distinct = tt; fresh = tt };
    events_bound = omega arith;
  }
  Reachable-IsSound env registered t (then s _ before step) =
      IsSound-Step env registered s t step (Reachable-IsSound env registered s before)
