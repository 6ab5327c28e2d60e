-- ===== src/Lib.antt =====
-- A model of hermes_workflows, the package behind the dynamic-workflows plugin, and what is proved of it.
--
-- The program runs workflow scripts in a sandboxed VM and keeps, beside each run, a log of operator
-- controls and a set of scoped grants. Some of its parts are modelled here, with what of Python they use.
--
-- Operator controls (src/hermes_workflows/controls.py). An operator's verb (pause_run, resume_run,
-- stop_run, stop_task, retry, decide_call) appends a WorkflowControl to an append-only store. The log of
-- a run is replayed by project_control_state into a RunControlState, and evaluate_control_state, with
-- its wrappers may_start_work, may_continue_task, may_retry and may_check_run, decides from that state
-- whether the runtime may go on.
--   Controls/Records      the enums of actions and decisions, WorkflowControl, _opt_str
--   Controls/Codec        WorkflowControl.to_dict and from_dict, and the round trip
--   Controls/Store        Interface is the ControlStore protocol with its laws; Memory is
--                         InMemoryControlStore, File is FileControlStore, its directory a map from
--                         run id to the text of the file; Buckets is what they share
--   Controls/Options      what record_control mints, the attempts of retry, metadata of a decision
--   Controls/Verbs        record_control and the verbs, over any store of the interface
--   Controls/Projection   project_control_state; its results in Terminal and Toggle
--   Controls/Decisions    evaluate_control_state and its wrappers; FromLog is the reading of the log
--                         that the decisions refine
--
-- Scoped grants (src/hermes_workflows/grants.py). A script asks for a grant (request_grant), a broker
-- and a store resolve it (resolve_grant), and a grant is checked again when it is used (validate_grant);
-- find_raw_credential and redact_credentials keep credentials out of every record.
--   Grants/Credentials    the credential scan and the redaction; results in Clean and Redacted
--   Grants/Records        GrantHandle, GrantRequest, SessionGrant
--   Grants/Checks         identifiers, scopes and numbers
--   Grants/Codec          to_dict and from_dict
--   Grants/Requests       request_grant
--   Grants/Resolve        resolve_grant, _audit_issued_grant, _sanitize_issued_grant; Within and Sound
--                         their results
--   Grants/Broker         StaticPolicyGrantBroker; Issued its results
--   Grants/Stores         InMemoryGrantStore and FileGrantStore, with their results
--   Grants/Validate       validate_grant; Clock, Sound and Live its results
--
-- The schemas of agent output (src/hermes_workflows/schema_subset.py). Both engines check the output of
-- an agent against a schema, which is either of a subset of JSON Schema or a flat dict of type hints.
--   Schema/Nodes          the normalized schema, and the errors with their paths
--   Schema/Normalize      normalize_schema with _normalize_subset_node and _normalize_legacy_flat,
--                         is_declared_subset_schema, check_schema
--   Schema/Check          _check_value, _check_object, _check_array, validate; Conforms is the
--                         specification, Parts and Decides its link to the checks, Verdicts and
--                         Errors the results
--
-- Workflow events (src/hermes_workflows/events.py). An external event is stored once, with the next
-- version, and a workflow that waits finds the events behind the version that it has seen.
--   Events/Records        WorkflowEvent with its constructor, _with_version; Made its results
--   Events/Codec          to_dict and from_dict of both, and the round trip of an event
--   Events/Store          InMemoryWorkflowEventStore and match_workflow_event; Log its results
--
-- Resources (src/hermes_workflows/resources.py). An action of a loop declares what it started, with the
-- finalizers that clean it up; each finalizer that is due runs once for a trigger.
--   Resources/Records     ResourceFinalizer, WorkflowResource, FinalizerResult and their to_dict
--   Resources/Codec       _identifier_safe, _normalize_when, _dedupe_finalizers, both from_dict
--   Resources/Envelopes   normalize_resource_envelopes; Provenance its results
--   Resources/Redact      _redact_text, _redact_finalizer_payload on fuel, without a result where it
--                         runs out; Enough its results
--   Resources/Keys        the completed keys, has_required_finalizer_failure
--   Resources/Finalize    run_resource_finalizers, _run_one_finalizer; Named and Once its results
--   Resources/Registry    ResourceFinalizerRegistry
--
-- The loop runner (src/hermes_workflows/loops.py). loop_run senses, decides and acts in rounds until
-- the sensor converges, the actuator suspends, or a brake halts the run; then it closes the resources.
--   Loops/Records         LoopState, LoopSensorResult, LoopRunStatus, events and reports; a summary is a
--                         Message, the fields that an event has beside it a Detail
--   Loops/Spec            loop_validate of a parsed spec; Read is _brakes with the int() and float()
--                         that loop_run applies to it, Valid the results
--   Loops/World           what is outside (clocks, callables, broker, store, sink) as changes of a
--                         state; _record_event, _halt, _report, _context, _time_exceeded; Kept what
--                         the steps inside a round keep
--   Loops/Sensor          _normalize_sensor_result, _read_sensor_with_noise_retry
--   Loops/Action          _action_cost, _actuator_suspension, _redact_grant_envelopes
--   Loops/Authority       _handle_actuator_grant, _grant_audit, over request_grant, resolve_grant and
--                         validate_grant of Grants; Recorded its results
--   Loops/Ownership       _register_resources, _closeout_resources, over Resources; Closed its results
--   Loops/Round           the body of the while; Outcome, Acting and Stages how it may end
--   Loops/Run             loop_run; Enough and Done its results
--
-- Capabilities (src/hermes_workflows/capabilities.py). A script asks the host for a named capability; the
-- registry checks the request and the policy of the run, calls the handler, and bounds its result.
--   Capabilities/Records  WorkflowCapability, CapabilityPolicy, normalize_capability_name
--   Capabilities/Clip     _clip_string, _clip_stream_fields; Bound its results
--   Capabilities/Requests find_capability_request_credential, safe_capability_metadata_value,
--                         _enforce_policy; Permitted its results
--   Capabilities/Registry CapabilityRegistry, finalize_capability_result, _normalize_result,
--                         _bound_result; Guarded its results
--
-- Runs (src/hermes_workflows/registry.py, with StepStatus, Progress and RunStatus of models.py). A store
-- holds the record of each run; the runtime sets its status and its steps.
--   Runs/Records          RunRecord with to_status and _progress, _apply_status, _upsert_step; Steps its
--                         results
--   Runs/Memory           InMemoryRunStore; Updates its results
--
-- Python (Python/). Value is the data a record carries (None, bool, int, float, str, list, dict, and a
-- class object); Float a finite multiple of 2^-1074, an infinity or NaN; Text and Lines the str methods;
-- Fields the order and the keys of a dict. Texts are the native strings. Prelude holds what all parts
-- share.
--
-- Parameters. The Unicode tables (str.isalnum, str.isspace, str.lower) are the record Unicode, the
-- rounding of float arithmetic is the record Rounding, the JSON text of a dict and its parser are
-- parameters of the file stores with the law that a text is read back (a grant's up to the order of
-- its keys, which are sorted in the file), and time, id generators, brokers
-- and grant stores, which may raise and leave a changed state, are arguments of the operations that use
-- them. Laws are asked only where a theorem
-- needs them. The substitution of the pattern _EMBEDDED_CREDENTIAL_RE is the parameter mask; the hash of
-- a spec and a fresh run id are arguments of loop_run, the length of a result's JSON of a capability, and
-- the rounded percentage of a run's progress. Tests/Samples instantiates the parameters with ASCII tables
-- and exact rounding.
--
-- Bounds. The while of loop_run has fuel for max_steps + 1 rounds, and _redact_finalizer_payload for the
-- depth of its value, both of which are enough by theorems below; every other function is a structural
-- recursion. Integers are unbounded, as in Python. Exceptions are values of Except. The locks of the
-- stores are not modelled: the stores of controls, events and runs hold theirs throughout an operation,
-- so operations are atomic and a history is a sequence of them. A status store, a sink or a clock of
-- loop_run that raises is left out, as are the constant texts of a context's expected_return. The identity of
-- objects is not modelled, so that NaN equals nothing; but an event of a loop that shares a dict with the
-- status says so.
--
-- Not modelled: what runs outside these parts, that is the VM and its RPC, the script catalogues, the
-- kanban bridge, background runs and the plugin's entry points; the run stores of loops and the file
-- store of runs; the creation of directories and fsync; the texts of error messages, save where a caller
-- sees them as a value.
pub mod Prelude
pub mod Python
pub mod Controls
pub mod Grants
pub mod Schema
pub mod Events
pub mod Resources
pub mod Loops
pub mod Capabilities
pub mod Runs
pub mod Tests
