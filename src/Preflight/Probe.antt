-- ===== src/Preflight/Probe.antt =====
-- The live probe, its report and its outcome (modules/operator/internal/preflight/preflight.go and
-- probe.go).
pub mod Refines
use route_prism.Common.{
  ℕ, Bool, true, false, not, Option, none, some, List, [], ◌∷◌, ◌++◌, ◌&&◌, ◌||◌, if◌then◌else◌,
  is_nil, Str, codes, str_eq, is_empty,
}
use route_prism.Preflight.Mesh.{MeshKind, MeshInfo, known_issue, experimental}

-- A condition of a parent's status; `holds` is the status `True`.
pub record ProbeCondition : Type 0 where
  pub type_name : Str
  pub holds : Bool
  pub reason : Str
  pub message : Str

pub record ProbeParent : Type 0 where
  pub controller_name : Str
  pub conditions : List ProbeCondition

-- What the API server says to the creation of an object.
pub data Creation : Type 0 where
  created already_exists no_match : Creation
  failed : Str → Creation

pub record ProbeResult : Type 0 where
  pub crd_missing : Bool
  pub create_err : Option Str
  pub accepted : Bool
  pub controller_name : Str
  pub reason : Str
  pub message : Str
  pub timed_out : Bool

abbrev pub empty_result : ProbeResult
empty_result = record {
  crd_missing = false;
  create_err = none;
  accepted = false;
  controller_name = [];
  reason = [];
  message = [];
  timed_out = false;
}

-- The first condition `Accepted`.
unfoldable pub find_accepted : List ProbeCondition → Option ProbeCondition
find_accepted [] = none
find_accepted (c ∷ cs) =
    let rest = find_accepted cs in if str_eq c.type_name (codes "Accepted") then some c else rest

abbrev decided : ProbeResult → ProbeCondition → ProbeResult
decided res c = record res { accepted = c.holds; reason = c.reason; message = c.message }

-- What a parent with conditions decides: its condition `Accepted`, or what follows.
abbrev answered : ProbeResult → Option ProbeCondition → ProbeResult × Bool → ProbeResult × Bool
answered seen (some c) rest = (decided seen c, true)
answered seen none rest = rest

abbrev answer_of : ProbeResult → Str → ProbeResult
answer_of res name = record res { timed_out = false; controller_name = name }

-- One poll over the parents, and whether it ends the probe. A parent with conditions counts as an
-- answer also if none of them is `Accepted`.
unfoldable pub scan_parents : ProbeResult → List ProbeParent → ProbeResult × Bool
scan_parents res [] = (res, false)
scan_parents res (p ∷ ps) =
    let seen = answer_of res p.controller_name in
    let skipped = scan_parents res ps in
    let rest = scan_parents seen ps in
    if is_nil p.conditions then skipped else answered seen (find_accepted p.conditions) rest

abbrev next_poll : ProbeResult × Bool → (ProbeResult → ProbeResult) → ProbeResult
next_poll (res, true) rest = res
next_poll (res, false) rest = rest res

-- The polls before the deadline, each with the parents that it reads; a failed read has none.
unfoldable pub poll : ProbeResult → List (List ProbeParent) → ProbeResult
unfolding scan_parents
poll res [] = res
poll res (parents ∷ polls) = next_poll (scan_parents res parents) (λ res'. poll res' polls)

-- The calls that change the cluster.
pub data ProbeCall : Type 0 where
  create_service create_http_route delete_http_route delete_service : ProbeCall

-- The deferred cleanup.
abbrev pub cleanup : List ProbeCall
cleanup = delete_http_route ∷ delete_service ∷ []

abbrev after_route : Creation → List (List ProbeParent) → ProbeResult
after_route Creation.created polls = poll (record empty_result { timed_out = true }) polls
after_route Creation.already_exists polls = poll (record empty_result { timed_out = true }) polls
after_route Creation.no_match polls = record empty_result { crd_missing = true }
after_route (Creation.failed e) polls = record empty_result { create_err = some e }

abbrev no_match_error : Str
no_match_error = codes "no matches for kind"

-- `liveProbe`: its result and its calls. `service` and `route` are the answers to the two creations.
unfoldable pub live_probe :
    (service route : Creation) → List (List ProbeParent) → ProbeResult × List ProbeCall
unfolding poll
live_probe Creation.created route polls =
    (after_route route polls, create_service ∷ create_http_route ∷ cleanup)
live_probe Creation.already_exists route polls =
    (after_route route polls, create_service ∷ create_http_route ∷ cleanup)
live_probe Creation.no_match route polls =
    (record empty_result { create_err = some no_match_error }, create_service ∷ cleanup)
live_probe (Creation.failed e) route polls =
    (record empty_result { create_err = some e }, create_service ∷ cleanup)

pub data ProbeOutcome : Type 0 where
  outcome_accepted outcome_rejected outcome_no_controller : ProbeOutcome
  outcome_crd_missing outcome_probe_error : ProbeOutcome

abbrev observed_outcome : (timed_out accepted : Bool) → ProbeOutcome
observed_outcome true accepted = outcome_no_controller
observed_outcome false true = outcome_accepted
observed_outcome false false = outcome_rejected

abbrev created_outcome : Option Str → (timed_out accepted : Bool) → ProbeOutcome
created_outcome (some e) timed_out accepted = outcome_probe_error
created_outcome none timed_out accepted = observed_outcome timed_out accepted

-- The outcome in `Probe`.
unfoldable pub outcome_of : ProbeResult → ProbeOutcome
outcome_of res =
    if res.crd_missing
    then outcome_crd_missing
    else created_outcome res.create_err res.timed_out res.accepted

-- An event of the report, without its message.
pub record ProbeEvent : Type 0 where
  pub warning : Bool
  pub reason : Str

abbrev pub warn : Str → ProbeEvent
warn reason = record { warning = true; reason = reason }

abbrev issue_events : MeshInfo → List ProbeEvent
issue_events mesh =
    if not (is_empty (known_issue mesh))
    then warn (
        if experimental mesh
        then codes "ExperimentalMeshVersion"
        else codes "UnsupportedMeshVersion")
      ∷ []
    else []

abbrev observed_event : (timed_out accepted : Bool) → ProbeEvent
observed_event true accepted = warn (codes "MeshGAMMANoController")
observed_event false false = warn (codes "MeshGAMMANotAccepted")
observed_event false true = record { warning = false; reason = codes "MeshGAMMASupported" }

abbrev created_events : MeshInfo → Option Str → (timed_out accepted : Bool) → List ProbeEvent
created_events mesh (some e) timed_out accepted = warn (codes "MeshProbeFailed") ∷ []
created_events mesh none timed_out accepted =
    issue_events mesh ++ observed_event timed_out accepted ∷ []

-- `Options.SelfPod`, the reference to the Pod of the operator.
pub record PodRef : Type 0 where
  pub name : Str
  pub namespace : Str

-- Whether `podStubForEvent` gives a Pod.
unfoldable pub has_pod_stub : Option PodRef → Bool
has_pod_stub none = false
has_pod_stub (some ref) = not (is_empty ref.name || is_empty ref.namespace)

-- The calls of `emit` in `report`.
unfoldable pub emitted : MeshInfo → ProbeResult → List ProbeEvent
unfolding known_issue experimental
emitted mesh res =
    if res.crd_missing
    then warn (codes "HTTPRouteCRDMissing") ∷ []
    else created_events mesh res.create_err res.timed_out res.accepted

-- `report`: the events that it hands to the recorder, if there is one and a Pod to attach them to.
unfoldable pub report :
    (has_recorder : Bool) → Option PodRef → MeshInfo → ProbeResult → List ProbeEvent
unfolding has_pod_stub emitted
report has_recorder self_pod mesh res =
    if has_recorder && has_pod_stub self_pod then emitted mesh res else []
