-- ===== src/Tests/Preflights.antt =====
-- The preflight check.
use route_prism.Common.{
  ◌≡◌, refl, true, false, some, List, [], ◌∷◌, ◌++◌, ◌&&◌, if◌then◌else◌, none, arith, get_last_or,
  codes,
}
use route_prism.Common.Atoi.{atoi_unsigned}
use route_prism.Preflight.Version.{version, to_string, parse_version}
use route_prism.Preflight.Version.Laws.{parse_version-to_string}
use route_prism.Preflight.Mesh.{MeshKind, MeshMode, MeshInfo, MeshReader, detect_mesh}
use route_prism.Preflight.Probe.{
  ProbeParent, Creation, find_accepted, scan_parents, ProbeCall, cleanup, live_probe, outcome_of,
  outcome_rejected, report, warn, PodRef, has_pod_stub,
}
use route_prism.Preflight.Probe.Refines.{verdict, event_for, live_probe-refines}

parse_version-to_string_example :
    (parse_version (to_string (version 1 22 10)) ≡ version 1 22 10)
    × (parse_version (codes "v" ++ to_string (version 1 22 10)) ≡ version 1 22 10)
parse_version-to_string_example =
    parse_version-to_string (version 1 22 10) (omega arith) (omega arith) (omega arith)

suffixed : parse_version (codes "1.22.0-rc.1") ≡ version 1 22 0
unfolding parse_version atoi_unsigned
suffixed = refl

-- An ambient Istio.
abbrev cluster : MeshReader
cluster = record {
  deployment_images = λ ns n. some (codes "docker.io/istio/pilot:1.21.3" ∷ []);
  has_daemon_set = λ ns n. true;
}

detected : detect_mesh cluster ≡ record {
  kind = MeshKind.istio;
  mode = MeshMode.ambient;
  version = version 1 21 3;
  raw_image = codes "docker.io/istio/pilot:1.21.3";
}
unfolding detect_mesh parse_version atoi_unsigned
detected = refl

abbrev mesh : MeshInfo
mesh = record {
  kind = MeshKind.istio;
  mode = MeshMode.ambient;
  version = version 1 21 3;
  raw_image = [];
}

-- Two parents, of which the second accepts the route.
abbrev polls : List (List ProbeParent)
polls =
    []
    ∷ (record {
      controller_name = codes "one";
      conditions =
          record {
            type_name = codes "Accepted";
            holds = false;
            reason = codes "NotAllowed";
            message = [];
          }
          ∷ [];
    }
        ∷ record {
          controller_name = codes "two";
          conditions =
              record {
                type_name = codes "Accepted";
                holds = true;
                reason = codes "Accepted";
                message = [];
              }
              ∷ [];
        }
        ∷ [])
    ∷ []

-- The first parent decides.
rejected : outcome_of (live_probe Creation.created Creation.created polls).0 ≡ outcome_rejected
unfolding live_probe outcome_of scan_parents find_accepted
rejected = refl

abbrev self_pod : PodRef
self_pod = record { name = codes "operator-0"; namespace = codes "route-prism" }

live_probe-refines_example :
    (outcome_of (live_probe Creation.created Creation.created polls).0
      ≡ verdict Creation.created Creation.created polls)
    × (get_last_or
          (report true (some self_pod) mesh (live_probe Creation.created Creation.created polls).0)
          (warn [])
        ≡ (if true && has_pod_stub (some self_pod)
            then event_for (verdict Creation.created Creation.created polls)
            else warn []))
    × ((before : List ProbeCall) × ((live_probe Creation.created Creation.created polls).1
          ≡ before ++ cleanup))
live_probe-refines_example =
    live_probe-refines Creation.created Creation.created polls mesh true (some self_pod) (warn [])

out_of_cluster : report true none mesh (live_probe Creation.created Creation.created polls).0 ≡ []
unfolding report has_pod_stub
out_of_cluster = refl
