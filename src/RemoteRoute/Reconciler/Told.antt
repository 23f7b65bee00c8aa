-- ===== src/RemoteRoute/Reconciler/Told.antt =====
-- The status that a run of the reconciler writes.
use route_prism.Common.{All, Str}
use route_prism.Common.Members.{All-map}
use route_prism.RemoteRoute.Client.{
  Write, update, update_status, apply_config_map, apply_service, apply_deployment, event, Client,
}
use route_prism.RemoteRoute.Reconciler.{run}
use route_prism.RemoteRoute.Reconciler.Conditions.{IsTold}
use route_prism.RemoteRoute.Reconciler.Ready.{IsSound}
use route_prism.RemoteRoute.Reconciler.Provisioned.{run-IsSound}

-- What a write tells, if it writes the status.
abbrev pub TellsStatus : Client → Str → Str → Write → Type 0
TellsStatus c namespace name (update_status rr) = IsTold c namespace name rr
TellsStatus c namespace name (update rr) = Unit
TellsStatus c namespace name (event reason) = Unit
TellsStatus c namespace name (apply_config_map cm) = Unit
TellsStatus c namespace name (apply_service svc) = Unit
TellsStatus c namespace name (apply_deployment dep) = Unit

sound-TellsStatus :
    (c : Client) (namespace name : Str) (w : Write)
    → IsSound c namespace name w
    → TellsStatus c namespace name w
sound-TellsStatus c namespace name (update rr) h = tt
sound-TellsStatus c namespace name (update_status rr) h = h
sound-TellsStatus c namespace name (event reason) h = tt
sound-TellsStatus c namespace name (apply_config_map cm) h = tt
sound-TellsStatus c namespace name (apply_service svc) h = tt
sound-TellsStatus c namespace name (apply_deployment dep) h = tt

-- Every status that a run writes for the RemoteRoute that it has read has one condition `Ready`. If
-- that is false, the conditions `UpstreamReachable` are those of the earlier status. If it is true, the
-- proxy's Deployment has an available replica, and there is one condition `UpstreamReachable`, which
-- is true exactly if some upstream of the written status is healthy.
pub run-TellsStatus :
    (c : Client) (namespace name : Str)
    → All (TellsStatus c namespace name) (run c namespace name).1
run-TellsStatus c namespace name =
    All-map (run c namespace name).1 (sound-TellsStatus c namespace name)
      (run-IsSound c namespace name)
