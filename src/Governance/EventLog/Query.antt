-- ===== src/Governance/EventLog/Query.antt =====
-- What GovernanceEventLog.query returns after appends.
use domain_determine.Base.{
  String, ◌≡◌, inl, inr, refl, ap, ◌∙◌, Bool, true, false, ◌&&◌, Option, none, some, List, [], ◌∷◌,
  ◌++◌, nat_eq, string_eq, if◌then◌else◌, get_or, Bool-cases, truthy,
}
use mathlib.Core.Path.{fun_ext}
use mathlib.Core.List.{append-nil}
use domain_determine.Base.Json.{str, object, Fields, end, field, at, sort_json, sort_fields}
use domain_determine.Governance.EventLog.{
  Codec, GovernanceEvent, GovernanceEventLog, GovernanceEventType, proposal_created, Result, ok,
  err, ◌>>=◌, append, event_to_dict, event_type_of, from_fields, push, query, read_line, read_lines,
  read_raw, sign_event, value_of, wanted_artifact, wanted_type,
}

-- Each event type is found again by its value.
pub event_type_of-value_of : (t : GovernanceEventType) → event_type_of (value_of t) ≡ some t
unfolding event_type_of
event_type_of-value_of proposal_created = refl
event_type_of-value_of _ = refl

-- The event as it is read back: the keys of its payload are sorted.
abbrev pub normal : GovernanceEvent → GovernanceEvent
normal e = record e { payload = sort_fields e.payload }

-- The event passes both filters of a query.
abbrev pub selected : Option String → Option (List GovernanceEventType) → GovernanceEvent → Bool
selected artifact_id event_types e =
    wanted_type event_types (some (str (value_of e.event_type)))
    && wanted_artifact artifact_id (some (str e.artifact.artifact_id))

push-append :
    (r k : Option GovernanceEvent) (es : List GovernanceEvent)
    → push r (es ++ push k []) ≡ push r es ++ push k []
push-append none k es = refl
push-append (some e) k es = refl

after :
    (es : List GovernanceEvent) (b : Bool) (e : GovernanceEvent)
    → ok (es ++ push (if b then some e else none) []) ≡ ok (if b then es ++ e ∷ [] else es)
after es true e = refl
after es false e = ap ok (append-nil es)

regroup :
    (m : Result (Option GovernanceEvent)) (ms : Result (List GovernanceEvent))
    (k : Result (Option GovernanceEvent))
    → (m >>= λ r. (ms >>= λ es. k >>= λ r'. ok (es ++ push r' [])) >>= λ es. ok (push r es))
      ≡ ((m >>= λ r. ms >>= λ es. ok (push r es)) >>= λ es. k >>= λ r'. ok (es ++ push r' []))
regroup (err e) ms k = refl
regroup (ok r) (err e) k = refl
regroup (ok r) (ok es) (err e) = refl
regroup (ok r) (ok es) (ok k) = ap ok (push-append r k es)

module _ (codec : Codec) where
  open codec use {
    Line, dumps, loads, is_blank, digest, isoformat, fromisoformat, loads-dumps, dumps-not_blank,
    iso_round_trip, digest_not_empty,
  }

  abbrev signed_as : GovernanceEvent → String → GovernanceEvent
  signed_as e s = record e { signature = some s }

  module _ (e : GovernanceEvent) (s : String) (written : truthy s ≡ true) where
    abbrev artifact_fields : Fields
    artifact_fields =
        field "artifact_id" (str e.artifact.artifact_id)
          (field "hash" (str e.artifact.hash) (field "version" (str e.artifact.version) end))

    abbrev sorted_fields : Fields
    sorted_fields = field "actor" (str e.actor) (
        field "artifact" (object artifact_fields) (
          field "event_type" (str (value_of e.event_type)) (
            field "payload" (object (sort_fields e.payload))
              (field "signature" (str s) (field "timestamp" (str (isoformat e.timestamp)) end)))))

    sort-event_to_dict : sort_fields (event_to_dict codec (signed_as e s)) ≡ sorted_fields
    unfolding sort_fields event_to_dict
    sort-event_to_dict = rw written

    from-sorted_fields :
        from_fields codec sorted_fields artifact_fields ≡ ok (normal (signed_as e s))
    unfolding from_fields at
    from-sorted_fields = rw (event_type_of-value_of, iso_round_trip)

    module _ (artifact_id : Option String) (event_types : Option (List GovernanceEventType)) where
      read_raw-sorted_fields :
          read_raw codec artifact_id event_types sorted_fields
          ≡ ok (if selected artifact_id event_types e then some (normal (signed_as e s)) else none)
      unfolding read_raw at
      read_raw-sorted_fields =
          elim (Bool-cases (wanted_type event_types (some (str (value_of e.event_type))))) [
            | inl right ↦
                elim (Bool-cases
                  (wanted_artifact artifact_id (some (str e.artifact.artifact_id)))) [
                    | inl named ↦ rw (right, named, from-sorted_fields)
                    | inr other ↦ rw (right, other)
                  ]
            | inr wrong ↦ rw wrong
          ]

      read_line-dumps :
          read_line codec artifact_id event_types
            (dumps (object (event_to_dict codec (signed_as e s))))
          ≡ ok (if selected artifact_id event_types e then some (normal (signed_as e s)) else none)
      unfolding read_line sort_json
      read_line-dumps = rw (dumps-not_blank, loads-dumps, sort-event_to_dict) read_raw-sorted_fields

  module _ (artifact_id : Option String) (event_types : Option (List GovernanceEventType)) where
    read_lines-append :
        (ls : List Line) (l : Line)
        → read_lines codec artifact_id event_types (ls ++ l ∷ []) ≡ (
            read_lines codec artifact_id event_types ls >>= λ es.
            read_line codec artifact_id event_types l >>= λ r. ok (es ++ push r []))
    unfolding read_lines
    read_lines-append [] l = refl
    read_lines-append (x ∷ ls) l = rw (read_lines-append ls l) (
        regroup (read_line codec artifact_id event_types x)
          (read_lines codec artifact_id event_types ls) (read_line codec artifact_id event_types l))

    file_lines :
        (file : Option (List Line)) (secret : String)
        → query codec artifact_id event_types (record { secret = secret; file = file })
          ≡ read_lines codec artifact_id event_types (get_or file [])
    unfolding query read_lines
    file_lines none secret = refl
    file_lines (some ls) secret = refl

    -- After an append the query returns what it returned before and then the new event, signed, if it
    -- passes the query's filters. A query that raised before raises the same error.
    pub query-append :
        (e : GovernanceEvent) (log : GovernanceEventLog codec)
        → query codec artifact_id event_types (append codec e log).1 ≡ (
            query codec artifact_id event_types log >>= λ es. ok (
              if selected artifact_id event_types e
              then es ++ normal (append codec e log).0 ∷ []
              else es))
    unfolding append sign_event
    query-append e log =
        let unsigned = record e { signature = none } in
        let s = digest log.secret (dumps (object (event_to_dict codec unsigned))) in
        let line = dumps (object (event_to_dict codec (signed_as e s))) in
        file_lines (some (get_or log.file [] ++ line ∷ [])) log.secret
        ∙ read_lines-append (get_or log.file []) line
        ∙ rw
            (
              read_line-dumps e s (digest_not_empty _ _) artifact_id event_types,
              file_lines log.file log.secret,
            )
            (ap (λ f. read_lines codec artifact_id event_types (get_or log.file []) >>= f)
              (fun_ext
                (λ es. after es (selected artifact_id event_types e) (normal (signed_as e s)))))
