-- ===== src/Lib.antt =====
-- TaskGuard of the Ligong skill (taskguard/): the parts that decide whether an external action may run, keep the
-- receipts of what was done and carry an effect out and back, with the parts that route and report.
--
-- The program. A task is described by a capsule, whose risk is evaluated in three stages (taskguard/risk.py). An
-- external action moves through a lifecycle (v3/action_machine.py). Its plan, authority, rollback readiness,
-- intents and effects are receipts, each an immutable JSON value under its SHA-256 digest (receipts/refs.py,
-- v3/receipts.py, v3/receipt_store.py). The saga (v3/saga.py) applies the action through an adapter, behind the
-- guards: the kill switch, the check of the receipt graph, the bindings of the receipts, the consumption of the
-- authority. Gates decide about releases and production from evidence (the files of v3 that Gates models), and
-- the adapters themselves are registered, asked for their capabilities and tested (Adapters). A command is
-- routed to the backend of its protocol (router.py).
--
-- The files, with the paths of the repository below taskguard/:
--   Base               shared names, texts, lists, JSON values (Value) and computations that may raise (Outcome)
--   Action             v3/action_machine.py: reduce_action over the table TRANSITIONS; the children prove what
--                      a sequence of accepted events says (Traces), how an action begins and ends (Finish) and
--                      how it can end (Progress)
--   Receipts           receipts/refs.py, v3/receipts.py (the checks of __post_init__ are new_receipt), the
--                      manifests in Manifest, and freeze_json, thaw_json of validation.py
--   Store              v3/receipt_store.py: put and load over a map from digests to blobs; verify_graph in Graph;
--                      Content, Soundness, Ancestors and Completeness prove; Json is the codec
--                      of the store over the manifests of Receipts
--   Risk               risk.py: validate_capsule in Capsule, evaluate_risk and _validate_previous in Fuse;
--                      Monotone, Blockers, Admission and Stages prove
--   Saga               v3/saga.py: the state is the disk, the readings of the clock and the calls made so far; a
--                      method returns its result with the state, also where it raises. Quiet and Returns hold the
--                      laws of the steps, Guarded, Effects, Safety and Confirmed are about apply, RolledBack about
--                      rollback and Recovery about the methods other than apply
--   Gates              v3/kill_switch.py, aggregator.py, production_gate.py, release_report.py,
--                      release_gates.py, release_policy.py, health.py and endpoint_policy.py, one module each
--   StageChain         v3/chain.py
--   Adapters           v3/adapter_registry.py, v3/capabilities.py and v3/conformance.py
--   Router             router.py; Agreement proves
--   Host               capabilities.py
--   Verdicts           verdicts.py
--   Contract           contract.py: the checks of single values; Glob is fnmatch of one component, Selectors the
--                      set of states that matches a selector, Scan the walks over the working tree, Paths the checks
--                      that ask the host, Objects the arrays of a contract and Validate the whole. Selectors.Worklist,
--                      Reading and Matching, Scan.Safety and Globs, Paths.Confined, Objects.Distinct
--                      and Parsed and Validate.WellFormed prove
--   ContractV3         contracts/v3.py: Actions is one action and its manifest, Validate the whole contract, over the
--                      validation of Contract. Parsed, Inversion, Frozen, Reparsed and Bound prove
--   StateStore         state.py: Resources is the check of a value's size, Files reading and writing of a manifest,
--                      Operations the methods and Lease the manifest of a lease. Table is the abstract store, Refinement,
--                      Runs and Revisions relate the two, Traversal and Limits are about the resources
--   Examples           each result at a concrete input
--
-- Conventions. A method that raises returns an error of an Outcome; the exceptions keep their class and reason, not
-- the text of the message. A mapping is an association list whose first entry of a key counts. JSON values have
-- no floating-point numbers. SHA-256, the writing and reading of JSON, the clock, the adapter and the authority
-- consumer are parameters: records of functions, whose answers may depend on all calls before. The clock counts
-- microseconds. Loops are recursions on lists; the search of verify_graph goes by the depth that is left, which
-- the source bounds by max_depth, so no fuel is added.
--
-- The working tree of a contract does not change while it is read, and the methods of the state store are whole
-- steps, in the order in which they get its lock. The search of a selector's closure takes as much fuel as its
-- states have positions behind them; the check of a value goes by the nodes that are left.
--
-- Not modelled: the manifests of a v3 contract other than an action's, and the reading of a contract file; the
-- permissions and links of files, which are one case that reading refuses; the locks of the stores and the identity
-- of open files; the command line, the runner, the workspace and the other files that the header does not name.
pub mod Base
pub mod Contract
pub mod ContractV3
pub mod Action
pub mod Gates
pub mod Receipts
pub mod Store
pub mod Risk
pub mod Saga
pub mod Verdicts
pub mod Host
pub mod Router
pub mod Adapters
pub mod StageChain
pub mod StateStore
pub mod Examples
