-- ===== src/Lib.antt =====
-- The core of the Open Banking conformance suite, and what makes it correct.
--
-- The suite compiles a catalogue of test cases into a test plan, runs the selected steps of the
-- plan against a bank, and reports a result. The parts modelled here are its compiler, from the
-- choice and order of cases to the merged plan, the plan and its schedule, the report of a run and the masking of its
-- evidence, the gate that accepts the report, and the two stores of the server that runs it.
--
-- - Catalogue, Catalogue.Ordering: conformance/catalogue.py. `_ordered_case_ids` closes the selected
--   cases under their dependencies and puts each after them. Its inner function `visit` is `visit`
--   on a record of the variables that it shares with the function around it, and `visit_each` is
--   each of its loops. The source recurs without a bound. Here `visit` has fuel, the number of cases
--   and one more, which never runs out, since the cases that are being visited are different ones.
-- - Catalogue.Selection: conformance/catalogue.py again. `decide` is the body of the loop of
--   `_directly_applicable_case_ids`, and `compile_selection` the part of `compile_test_plan` from the
--   index of the cases to the traceability decisions, without the runtime inputs. A set is a list, and
--   `issubset` and set differences are tests on its members.
-- - Catalogue.Capabilities: conformance/catalogue.py, the indexes of capabilities and the capabilities
--   that are selected for each endpoint. A dictionary by endpoint is an association list.
-- - Catalogue.Requirements, Catalogue.RuntimeInputs: conformance/catalogue.py, what the compiled cases
--   require of the participant's configuration, and the snapshot of it. `Requirements` are the variables
--   of `_combined_runtime_requirements`. The check of an address by conformance/url_validation.py is
--   an argument, `https_url_error`, with the text of its exception.
-- - Catalogue.Compiler: conformance/catalogue.py, `compile_test_plan`, which calls the parts in
--   this order; only the provenance that it carries along is left out. A `PlanRequest` is `TestPlanSpec`
--   of the code, of which `Selection.TestPlanSpec` is the part that the selection of cases reads.
-- - Catalogue.Merge: conformance/catalogue.py, from `_merge_compiled_plan_documents_v2` on: the plans of
--   several catalogue areas become one. `same_value` is Python's `==` between JSON values.
-- - TestPlan: conformance/test_plan.py. `TestPlan.with_deselection`, `summary` and the other
--   properties of the class, and the fields of a v1 step in conformance/manifest.py.
-- - Schedule: conformance/execution_schedule.py. `build_execution_schedule` is one loop over the
--   steps, on a record of its variables.
-- - Executor: conformance/executor.py, from `_run_manifest_v1` to `_execute_v1_manifest_step`. A thread
--   of a group is a `Worker`, and a list of numbers says in which order the threads get their turns, a
--   turn being one step. What a step does to the bank, the log and the sessions is an argument, as the
--   exception that it may raise is. The bound on the pool's threads only leaves fewer orders.
-- - Context, Placeholder: conformance/context.py. `resolve_segments` is `_resolve_dot_path` on the parts of
--   `dot_path.split(".")`. `substitute` is the regular expression `_PLACEHOLDER_PATTERN` with `sub`, as
--   a function that reads the template once; with `some name` it stands after `${` and `name`. The text
--   of a float and the table of Unicode digits are arguments, `Python`.
-- - Report: conformance/results.py and the policy of conformance/approved_releases.py. A reason is
--   a constructor with the values that its text contains. Report.Development is
--   `mark_development_result_evidence`, which changes a result that is JSON.
-- - Gate: conformance/result_gate.py. A check that raises is a result, and `Location` is the path
--   that a message begins with. `in` on a set raises for an array or an object, as in Python.
-- - Masking: conformance/masking.py. `key.lower()` is `Base.Text.lower`, which folds every character
--   whose lower case is an ASCII one.
-- - RunStore: conformance/api/run_store.py. Each method of `RunStore` holds one lock for the whole
--   of its body, so that it is a function on the store and threads are sequences of steps. A
--   dictionary is an association list in insertion order, a time a number, an identifier an argument.
-- - RunLifecycle, RunLaunch, BrowserLogger: conformance/api/run_lifecycle.py. `execute_run` is
--   `_execute_run` on the two stores and the log of the run. The engine is given by the actions that
--   happen while it runs and by what it returns; `ending` is which call ends the run, and `discard_sessions`
--   the `finally` clause. `start_run` takes the steps of a compiled plan as an argument. Other threads
--   act while the engine runs, and not between the end of a run and the removal of its sessions.
-- - AuthSession: conformance/api/auth_session_store.py, in the same way. `get` is `get_session`, and
--   `apply` is one call of any method.
-- - Base: what the parts share. `Base.Dict` is Python's dictionary: a new key comes last, a known one
--   keeps its place. `Base.Json` is `JsonValue` of conformance/json_types.py.
-- - Tests: each part on concrete inputs, and each theorem at inputs that meet its hypotheses.
--
-- The catalogue gives its cases to the plan, the plan its selected steps to the schedule; a run that
-- executes a schedule is a record of the run store, and waits for a redirect in the session store.
-- Its report counts the steps that ran and the mandatory steps that the plan left out.
--
-- Not modelled: the HTTP exchange, signing and browser steps of conformance/executor.py and
-- conformance/dcr_execution.py, which are I/O; the run of a compiled plan and of a v0 manifest; the Django views;
-- the parsers of plan documents and the split of their endpoints by catalogue area; the tables of
-- conformance/catalogues; the printing of records (`to_status_json`, and of the compiled plan)
-- and the log buffer of conformance/execution_log.py; the splitting of URLs in `mask_url_query`;
-- message texts, of which an error keeps the identifiers it names.
pub mod Base
pub mod AuthSession
pub mod RunStore
pub mod TestPlan
pub mod BrowserLogger
pub mod RunLifecycle
pub mod RunLaunch
pub mod Schedule
pub mod Report
pub mod Context
pub mod Placeholder
pub mod Executor
pub mod Gate
pub mod Masking
pub mod Catalogue
mod Tests
