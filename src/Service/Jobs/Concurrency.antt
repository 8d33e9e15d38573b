-- ===== src/Service/Jobs/Concurrency.antt =====
-- Requests on several threads. `JobManager.enqueue` is cut where the source holds no lock between the
-- check of the quota and the rest, `accept`: a request that has passed the check is in flight until it is
-- accepted, and other requests and the workers run meanwhile. `accept` is still one step.
use domain_determine.Base.{
  ℕ, ◌+◌, ◌≤◌, String, ◌≡◌, inl, inr, sym, ap, ◌∙◌, Bool, true, false, Option, none, some, List, [],
  ◌∷◌, ◌++◌, arith, nat_eq, string_eq, if◌then◌else◌, get_or, Bool-cases, absurd_bool, eq_iff,
  length,
}
use domain_determine.Base.Dict
use domain_determine.Base.Dict.{Dict}
use mathlib.Core.Path.{subst, subst₂}
use domain_determine.Governance.Sink.{EventSink}
use domain_determine.Service.Repos.{
  running, JobRequest, InMemoryRegistry, enqueue_job, quota_usage_of, quota_limits_of,
}
use domain_determine.Service.Repos.Counting.{usage, matches, usage-enqueue}
use domain_determine.Service.Jobs.{
  JobManager, Handler, runner_of, accept, prepared, begin_job, finish_job, handler_of, set_runner,
  check_quota, day, register_handler, ok, err, Result, take_out,
}
use domain_determine.Service.Jobs.Quotas.{limit_of, Within, check_quota_cases}
use domain_determine.Service.Jobs.QuotaTables.{
  SameQuotas, update_status-SameQuotas, settle-SameQuotas,
}

-- The requests in flight of a tenant and a type
unfoldable pub flying : String → String → List JobRequest → ℕ
flying tenant job_type [] = 0
flying tenant job_type (request ∷ requests) =
    (if matches tenant job_type request then 1 else 0) + flying tenant job_type requests

flying-length : (t q : String) (requests : List JobRequest) → flying t q requests ≤ length requests
unfolding flying
flying-length t q [] = omega arith
flying-length t q (request ∷ requests) = ground (arith, flying-length t q requests)

flying-middle :
    (t q : String) (before : List JobRequest) (request : JobRequest) (behind : List JobRequest)
    → flying t q (before ++ request ∷ behind)
      ≡ flying t q (before ++ behind) + (if matches t q request then 1 else 0)
unfolding flying
flying-middle t q [] request behind = omega arith
flying-middle t q (x ∷ xs) request behind = omega (arith, flying-middle t q xs request behind)

-- At most `slack` above the limit, if there is one
abbrev pub Near : ℕ → Option ℕ → ℕ → Type 0
Near slack none n = Unit
Near slack (some limit) n = n ≤ limit + slack

module _ (slack : ℕ) where
  -- No counter, with the requests in flight that it will count, is further above its limit.
  pub record IsNear (requests : List JobRequest) (r : InMemoryRegistry) : Type 0 where
    pub near : (t q : String) → Near slack (limit_of r t q) (usage r t q + flying t q requests)

  IsNear-cast :
      (requests : List JobRequest) (r r' : InMemoryRegistry)
      → r'.quota_limits ≡ r.quota_limits
      → r'.quota_usage ≡ r.quota_usage
      → IsNear requests r
      → IsNear requests r'
  unfolding limit_of usage quota_usage_of quota_limits_of
  IsNear-cast requests r r' e f w = record { near = λ t q. rw (e, f) (w.near t q) }

  Near-mono : (o : Option ℕ) (m n : ℕ) → m ≤ n → Near slack o n → Near slack o m
  Near-mono none m n le w = tt
  Near-mono (some limit) m n le w = omega arith

Near-wider : (slack : ℕ) (o : Option ℕ) (n : ℕ) → Near 0 o n → Near slack o n
Near-wider slack none n w = tt
Near-wider slack (some limit) n w = omega arith

Near-Within :
    (slack : ℕ) (o : Option ℕ) (used others : ℕ)
    → Within o (used + 1)
    → others ≤ slack
    → Near slack o (used + (1 + others))
Near-Within slack none used others w le = tt
Near-Within slack (some limit) used others w le = omega arith

abbrev passed : Result (Unit {0}) → Bool
passed (ok _) = true
passed (err e) = false

module _ (sink : EventSink) where
  -- The check of the quota that a request makes when the service has the manager ready
  abbrev pub check_request : JobRequest → JobManager sink → Bool
  check_request request m = passed (
      check_quota (get_or (prepared sink m).quota_window day) request.tenant request.job_type 1
        (prepared sink m).registry)

  -- One change of the shared state, with the requests in flight, of which a request finds at most `slack`
  -- when it passes the check
  pub data Tick (slack : ℕ) (m : JobManager sink) (requests : List JobRequest)
      : JobManager sink → List JobRequest → Type 0 where
    checks :
        (request : JobRequest)
        → check_request request m ≡ true
        → length requests ≤ slack
        → Tick slack m requests (prepared sink m) (request ∷ requests)
    refuses :
        (request : JobRequest)
        → check_request request m ≡ false
        → Tick slack m requests (prepared sink m) requests
    accepts :
        (before : List JobRequest) (request : JobRequest) (behind : List JobRequest) (now : ℕ)
        → requests ≡ before ++ request ∷ behind
        → Tick slack m requests (accept sink request now m).1 (before ++ behind)
    registers :
        (t : String) (h : Handler) → Tick slack m requests (register_handler sink t h m) requests
    begins : (id : String) (now : ℕ) → Tick slack m requests (begin_job sink id now m) requests
    finishes : (id : String) (now : ℕ) → Tick slack m requests (finish_job sink id now m) requests

  pub data Ticks (slack : ℕ) (m : JobManager sink) (requests : List JobRequest)
      : JobManager sink → List JobRequest → Type 0 where
    still : Ticks slack m requests m requests
    tick :
        {m' m'' : JobManager sink} {requests' requests'' : List JobRequest}
        → Ticks slack m requests m' requests'
        → Tick slack m' requests' m'' requests''
        → Ticks slack m requests m'' requests''

  checked_room :
      (request : JobRequest) (m : JobManager sink)
      → check_request request m ≡ true
      → Within
          (limit_of m.registry request.tenant request.job_type)
          (usage m.registry request.tenant request.job_type + 1)
  unfolding prepared
  checked_room request m passes =
      elim (check_quota_cases (get_or m.quota_window day) request.tenant request.job_type
        m.registry) [
          | inl (allowed, fits) ↦ fits
          | inr (limit, e, over, raises) ↦ absurd_bool (sym passes ∙ ap passed raises)
        ]

  module _ (slack : ℕ) where
    IsNear-same :
        (requests : List JobRequest) (r r' : InMemoryRegistry)
        → SameQuotas r r'
        → IsNear slack requests r
        → IsNear slack requests r'
    IsNear-same requests r r' (e, f) w = IsNear-cast slack requests r r' e f w

    checked-IsNear :
        (request : JobRequest) (requests : List JobRequest) (m : JobManager sink)
        → check_request request m ≡ true
        → length requests ≤ slack
        → IsNear slack requests m.registry
        → IsNear slack (request ∷ requests) m.registry
    unfolding flying
    checked-IsNear request requests m passes room w = record {
      near = λ t q. elim (Bool-cases (matches t q request)) [
        | inl same ↦
            let tenant : request.tenant ≡ t = (eq_iff _ _).0 (ground arith) in
            let kind : request.job_type ≡ q = (eq_iff _ _).0 (ground arith) in
            rw same (
              subst₂
                (λ t' q'.
                  Near slack (limit_of m.registry t' q')
                    (usage m.registry t' q' + (1 + flying t q requests)))
                tenant kind
                (Near-Within slack _ _ (flying t q requests) (checked_room request m passes)
                  (omega (arith, flying-length t q requests))))
        | inr other ↦
            rw other (Near-mono slack (limit_of m.registry t q) _ _ (omega arith) (w.near t q))
      ];
    }

    accepted-IsNear :
        (before : List JobRequest) (request : JobRequest) (behind : List JobRequest) (now : ℕ)
        (m : JobManager sink)
        → IsNear slack (before ++ request ∷ behind) m.registry
        → IsNear slack (before ++ behind) (accept sink request now m).1.registry
    unfolding accept limit_of usage flying Dict.get enqueue_job
    accepted-IsNear before request behind now m w = record {
      near = λ t q.
          Near-mono slack (limit_of m.registry t q) _ _
            (omega (
              arith,
              usage-enqueue request now m.registry t q,
              flying-middle t q before request behind,
            ))
            (w.near t q);
    }

    Tick-IsNear :
        {m m' : JobManager sink} {requests requests' : List JobRequest}
        → Tick slack m requests m' requests'
        → IsNear slack requests m.registry
        → IsNear slack requests' m'.registry
    unfolding prepared register_handler begin_job finish_job
    Tick-IsNear {m} {requests = requests} (checks request passes room) w =
        checked-IsNear request requests m passes room w
    Tick-IsNear (refuses request fails) w = w
    Tick-IsNear {m} (accepts before request behind now e) w =
        accepted-IsNear before request behind now m (subst (λ x. IsNear slack x m.registry) e w)
    Tick-IsNear (registers t h) w = w
    Tick-IsNear {m} {requests = requests} (begins id now) w =
        IsNear-same requests _ _ (update_status-SameQuotas sink id running none none now m) w
    Tick-IsNear {m} {requests = requests} (finishes id now) w =
        IsNear-same requests _ _
          (settle-SameQuotas sink id (Dict.get m.registry.jobs id)
            (handler_of (runner_of sink m) id) now
            (set_runner sink
              (record (runner_of sink m) { taken = take_out id (runner_of sink m).taken }) m))
          w

    wider : (m : JobManager sink) → IsNear 0 [] m.registry → IsNear slack [] m.registry
    wider m w = record { near = λ t q. Near-wider slack (limit_of m.registry t q) _ (w.near t q) }

    -- If no counter is above its limit and no request is in flight, and a request that passes the check
    -- never finds more than `slack` others between their check and their acceptance, then however these
    -- requests, registrations and the workers interleave, no counter gets further above its limit than
    -- `slack`, even with the requests that are still in flight counted.
    pub Ticks-IsNear :
        {m m' : JobManager sink} {requests : List JobRequest}
        → IsNear 0 [] m.registry
        → Ticks slack m [] m' requests
        → IsNear slack requests m'.registry
    Ticks-IsNear {m} w still = wider m w
    Ticks-IsNear w (tick run step) = Tick-IsNear step (Ticks-IsNear w run)
