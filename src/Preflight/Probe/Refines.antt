-- ===== src/Preflight/Probe/Refines.antt =====
-- What the probe promises, independent of the polls' order of work: its verdict.
use mathlib.Core.Path.{subst}
use mathlib.Core.List.{append_assoc, append-nil}
use route_prism.Common.{
  ◌≡◌, refl, sym, ap, ◌∙◌, Bool, true, false, Option, none, some, List, [], ◌∷◌, ◌++◌,
  if◌then◌else◌, is_nil, Str, codes, get_last_or, str_eq, Bool-cases, inl, inr, ◌&&◌,
}
use route_prism.Preflight.Mesh.{MeshInfo}
use route_prism.Preflight.Probe.{
  ProbeCondition, ProbeParent, Creation, ProbeResult, empty_result, find_accepted, decided,
  answered, answer_of, scan_parents, next_poll, poll, ProbeCall, cleanup, after_route, live_probe,
  ProbeOutcome, outcome_accepted, outcome_rejected, outcome_no_controller, outcome_crd_missing,
  outcome_probe_error, observed_outcome, created_outcome, outcome_of, ProbeEvent, warn, report,
  created_events, issue_events, PodRef, has_pod_stub, emitted,
}

-- The conditions that the parents show, poll by poll.
abbrev conditions_of : List ProbeParent → List ProbeCondition
conditions_of [] = []
conditions_of (p ∷ ps) = p.conditions ++ conditions_of ps

abbrev pub seen_conditions : List (List ProbeParent) → List ProbeCondition
seen_conditions [] = []
seen_conditions (parents ∷ polls) = conditions_of parents ++ seen_conditions polls

-- The verdict of the conditions, with the first condition `Accepted` among them: it decides; without
-- one, any condition at all is a rejection.
abbrev pub verdict_of : Option ProbeCondition → List ProbeCondition → ProbeOutcome
verdict_of (some c) cs = if c.holds then outcome_accepted else outcome_rejected
verdict_of none cs = if is_nil cs then outcome_no_controller else outcome_rejected

abbrev route_verdict : Creation → List ProbeCondition → ProbeOutcome
route_verdict Creation.created cs = verdict_of (find_accepted cs) cs
route_verdict Creation.already_exists cs = verdict_of (find_accepted cs) cs
route_verdict Creation.no_match cs = outcome_crd_missing
route_verdict (Creation.failed e) cs = outcome_probe_error

-- The verdict of a probe.
abbrev pub verdict : (service route : Creation) → List (List ProbeParent) → ProbeOutcome
verdict Creation.created route polls = route_verdict route (seen_conditions polls)
verdict Creation.already_exists route polls = route_verdict route (seen_conditions polls)
verdict Creation.no_match route polls = outcome_probe_error
verdict (Creation.failed e) route polls = outcome_probe_error

-- The state of a probe that has seen some conditions, none of them `Accepted`.
record IsOpen (res : ProbeResult) (cs : List ProbeCondition) : Type 0 where
  pub no_crd_error : res.crd_missing ≡ false
  pub no_create_error : res.create_err ≡ none
  pub silent : res.timed_out ≡ is_nil cs
  pub undecided : res.accepted ≡ false
  pub none_accepted : find_accepted cs ≡ none

or_first : Option ProbeCondition → Option ProbeCondition → Option ProbeCondition
or_first none o = o
or_first (some c) o = some c

find_accepted-append :
    (xs ys : List ProbeCondition)
    → find_accepted (xs ++ ys) ≡ or_first (find_accepted xs) (find_accepted ys)
unfolding find_accepted or_first
find_accepted-append [] ys = refl
find_accepted-append (x ∷ xs) ys = elim (Bool-cases (str_eq x.type_name (codes "Accepted"))) [
  | inl e ↦ rw e refl
  | inr e ↦ rw e (find_accepted-append xs ys)
]

-- The state after some conditions: still open, or decided by the first `Accepted` of them.
abbrev After : List ProbeCondition → ProbeResult × Bool → Type 0
After cs (res, false) = IsOpen res cs
After cs (res, true) =
    (c : ProbeCondition) × (find_accepted cs ≡ some c) × (outcome_of res ≡ verdict_of (some c) cs)

not_nil :
    (cs : List ProbeCondition) (x : ProbeCondition) (xs : List ProbeCondition)
    → is_nil (cs ++ x ∷ xs) ≡ false
not_nil [] x xs = refl
not_nil (c ∷ cs) x xs = refl

decided_outcome :
    (res : ProbeResult) (cs : List ProbeCondition) (name : Str) (c : ProbeCondition)
    → IsOpen res cs
    → outcome_of (decided (answer_of res name) c)
      ≡ (if c.holds then outcome_accepted else outcome_rejected)
unfolding outcome_of
decided_outcome res cs name c o =
    (λ i.
      if o.no_crd_error i
      then outcome_crd_missing
      else created_outcome (o.no_create_error i) false c.holds)
    ∙ settled c.holds
  where
    settled :
        (b : Bool) → observed_outcome false b ≡ (if b then outcome_accepted else outcome_rejected)
    settled true = refl
    settled false = refl

-- A parent with conditions.
answered-After :
    (res : ProbeResult) (cs : List ProbeCondition) (name : Str) (x : ProbeCondition)
    (xs later : List ProbeCondition) (rest : ProbeResult × Bool) (found : Option ProbeCondition)
    → IsOpen res cs
    → find_accepted (x ∷ xs) ≡ found
    → (IsOpen (answer_of res name) (cs ++ x ∷ xs) → After ((cs ++ x ∷ xs) ++ later) rest)
    → After ((cs ++ x ∷ xs) ++ later) (answered (answer_of res name) found rest)
unfolding or_first
answered-After res cs name x xs later rest none o e h = h (record {
  no_crd_error = o.no_crd_error;
  no_create_error = o.no_create_error;
  silent = sym (not_nil cs x xs);
  undecided = o.undecided;
  none_accepted = find_accepted-append cs (x ∷ xs) ∙ (λ i. or_first (o.none_accepted i) (e i));
})
answered-After res cs name x xs later rest (some c) o e h = (
  c,
  find_accepted-append (cs ++ x ∷ xs) later
      ∙ ap (λ r. or_first r (find_accepted later))
          (find_accepted-append cs (x ∷ xs) ∙ (λ i. or_first (o.none_accepted i) (e i))),
  decided_outcome res cs name c o,
)

scan_step :
    (res : ProbeResult) (cs : List ProbeCondition) (name : Str) (conds : List ProbeCondition)
    (ps : List ProbeParent)
    → IsOpen res cs
    → ((r : ProbeResult) (ds : List ProbeCondition)
        → IsOpen r ds
        → After (ds ++ conditions_of ps) (scan_parents r ps))
    → After
        (cs ++ (conds ++ conditions_of ps))
        (scan_parents res (record { controller_name = name; conditions = conds } ∷ ps))
unfolding scan_parents
scan_step res cs name [] ps o h = h res cs o
scan_step res cs name (x ∷ xs) ps o h =
    subst
      (λ l.
        After l (scan_parents res (record { controller_name = name; conditions = x ∷ xs } ∷ ps)))
      (append_assoc cs (x ∷ xs) (conditions_of ps))
      (answered-After res cs name x xs (conditions_of ps) (scan_parents (answer_of res name) ps) _ o
        refl (λ o'. h (answer_of res name) (cs ++ x ∷ xs) o'))

scan_parents-After :
    (res : ProbeResult) (cs : List ProbeCondition) (ps : List ProbeParent)
    → IsOpen res cs
    → After (cs ++ conditions_of ps) (scan_parents res ps)
unfolding scan_parents
scan_parents-After res cs [] o = subst (λ l. IsOpen res l) (sym (append-nil cs)) o
scan_parents-After res cs (p ∷ ps) o =
    scan_step res cs p.controller_name p.conditions ps o (λ r ds o'. scan_parents-After r ds ps o')

-- The verdict of the polls, for a probe that is open.
Decides : ProbeResult → List ProbeCondition → Type 0
Decides res cs = outcome_of res ≡ verdict_of (find_accepted cs) cs

next_poll-Decides :
    (cs later : List ProbeCondition) (r : ProbeResult × Bool) (rest : ProbeResult → ProbeResult)
    → After cs r
    → ((res : ProbeResult) → IsOpen res cs → Decides (rest res) (cs ++ later))
    → Decides (next_poll r rest) (cs ++ later)
unfolding Decides or_first
next_poll-Decides cs later (res, false) rest o h = h res o
next_poll-Decides cs later (res, true) rest (c, first, outcome) h =
    let first' : find_accepted (cs ++ later) ≡ some c =
      find_accepted-append cs later ∙ ap (λ r. or_first r (find_accepted later)) first in
    outcome ∙ ap (λ r. verdict_of r (cs ++ later)) (sym first')

open_outcome : (res : ProbeResult) (cs : List ProbeCondition) → IsOpen res cs → Decides res cs
unfolding Decides outcome_of
open_outcome res cs o =
    (λ i.
      if o.no_crd_error i
      then outcome_crd_missing
      else created_outcome (o.no_create_error i) (o.silent i) (o.undecided i))
    ∙ settled (is_nil cs)
    ∙ ap (λ r. verdict_of r cs) (sym o.none_accepted)
  where
    settled :
        (b : Bool)
        → observed_outcome b false ≡ (if b then outcome_no_controller else outcome_rejected)
    settled true = refl
    settled false = refl

poll-Decides :
    (res : ProbeResult) (cs : List ProbeCondition) (polls : List (List ProbeParent))
    → IsOpen res cs
    → Decides (poll res polls) (cs ++ seen_conditions polls)
unfolding poll
poll-Decides res cs [] o = subst (λ l. Decides res l) (sym (append-nil cs)) (open_outcome res cs o)
poll-Decides res cs (ps ∷ polls) o =
    subst (λ l. Decides (poll res (ps ∷ polls)) l)
      (append_assoc cs (conditions_of ps) (seen_conditions polls))
      (next_poll-Decides (cs ++ conditions_of ps) (seen_conditions polls) (scan_parents res ps) _
        (scan_parents-After res cs ps o) (λ r o'. poll-Decides r (cs ++ conditions_of ps) polls o'))

started : IsOpen (record empty_result { timed_out = true }) []
unfolding find_accepted
started = record {
  no_crd_error = refl;
  no_create_error = refl;
  silent = refl;
  undecided = refl;
  none_accepted = refl;
}

route_outcome :
    (route : Creation) (polls : List (List ProbeParent))
    → outcome_of (after_route route polls) ≡ route_verdict route (seen_conditions polls)
unfolding outcome_of Decides
route_outcome Creation.created polls = poll-Decides _ [] polls started
route_outcome Creation.already_exists polls = poll-Decides _ [] polls started
route_outcome Creation.no_match polls = refl
route_outcome (Creation.failed e) polls = refl

probe_outcome :
    (service route : Creation) (polls : List (List ProbeParent))
    → outcome_of (live_probe service route polls).0 ≡ verdict service route polls
unfolding live_probe outcome_of
probe_outcome Creation.created route polls = route_outcome route polls
probe_outcome Creation.already_exists route polls = route_outcome route polls
probe_outcome Creation.no_match route polls = refl
probe_outcome (Creation.failed e) route polls = refl

probe_cleanup :
    (service route : Creation) (polls : List (List ProbeParent))
    → (before : List ProbeCall) × ((live_probe service route polls).1 ≡ before ++ cleanup)
unfolding live_probe
probe_cleanup Creation.created route polls =
    (ProbeCall.create_service ∷ ProbeCall.create_http_route ∷ [], refl)
probe_cleanup Creation.already_exists route polls =
    (ProbeCall.create_service ∷ ProbeCall.create_http_route ∷ [], refl)
probe_cleanup Creation.no_match route polls = (ProbeCall.create_service ∷ [], refl)
probe_cleanup (Creation.failed e) route polls = (ProbeCall.create_service ∷ [], refl)

-- The event that tells an outcome.
abbrev pub event_for : ProbeOutcome → ProbeEvent
event_for ProbeOutcome.outcome_accepted = record {
  warning = false;
  reason = codes "MeshGAMMASupported";
}
event_for ProbeOutcome.outcome_rejected = warn (codes "MeshGAMMANotAccepted")
event_for ProbeOutcome.outcome_no_controller = warn (codes "MeshGAMMANoController")
event_for ProbeOutcome.outcome_crd_missing = warn (codes "HTTPRouteCRDMissing")
event_for ProbeOutcome.outcome_probe_error = warn (codes "MeshProbeFailed")

last_snoc : (es : List ProbeEvent) (e d : ProbeEvent) → get_last_or (es ++ e ∷ []) d ≡ e
last_snoc [] e d = refl
last_snoc (x ∷ es) e d = last_snoc es e x

report-last :
    (mesh : MeshInfo) (crd : Bool) (err : Option Str) (timed_out accepted : Bool) (d : ProbeEvent)
    → get_last_or
        (if crd
          then warn (codes "HTTPRouteCRDMissing") ∷ []
          else created_events mesh err timed_out accepted)
        d
      ≡ event_for (if crd then outcome_crd_missing else created_outcome err timed_out accepted)
report-last mesh true err timed_out accepted d = refl
report-last mesh false (some e) timed_out accepted d = refl
report-last mesh false none true accepted d = last_snoc (issue_events mesh) _ d
report-last mesh false none false true d = last_snoc (issue_events mesh) _ d
report-last mesh false none false false d = last_snoc (issue_events mesh) _ d

emitted_told :
    (mesh : MeshInfo) (res : ProbeResult) (d : ProbeEvent)
    → get_last_or (emitted mesh res) d ≡ event_for (outcome_of res)
unfolding emitted outcome_of
emitted_told mesh res d =
    report-last mesh res.crd_missing res.create_err res.timed_out res.accepted d

guarded :
    (b : Bool) (es : List ProbeEvent) (d e : ProbeEvent)
    → get_last_or es d ≡ e
    → get_last_or (if b then es else []) d ≡ (if b then e else d)
guarded true es d e h = h
guarded false es d e h = refl

-- The probe implements its verdict, for all answers to its calls: a failed creation is told as such;
-- else the first condition `Accepted` that any parent shows in any poll decides, and without one any
-- condition at all is a rejection and none means that there is no controller. The outcome of `Probe`
-- tells this verdict. So does the last recorded event after the report, if there are a recorder and a
-- Pod to attach events to; else the last recorded event is what it was before. The calls end with the
-- cleanup.
pub live_probe-refines :
    (service route : Creation) (polls : List (List ProbeParent)) (mesh : MeshInfo)
    (has_recorder : Bool) (self_pod : Option PodRef) (earlier : ProbeEvent)
    → (outcome_of (live_probe service route polls).0 ≡ verdict service route polls)
      × (get_last_or (report has_recorder self_pod mesh (live_probe service route polls).0) earlier
          ≡ (if has_recorder && has_pod_stub self_pod
              then event_for (verdict service route polls)
              else earlier))
      × ((before : List ProbeCall) × ((live_probe service route polls).1 ≡ before ++ cleanup))
unfolding report
live_probe-refines service route polls mesh has_recorder self_pod earlier =
    let res = (live_probe service route polls).0 in
    (
      probe_outcome service route polls,
      guarded (has_recorder && has_pod_stub self_pod) (emitted mesh res) earlier _
          (emitted_told mesh res earlier ∙ ap event_for (probe_outcome service route polls)),
      probe_cleanup service route polls,
    )
