-- ===== src/Lib.antt =====
-- The teaching platform from RTL to GDS: its data contracts and the services of its four
-- applications.
--
-- The parts. packages/contracts/src/openroad_platform_contracts holds frozen dataclasses, each with
-- a `validate` that refuses a malformed record. apps/m1_rtl_to_gds is the guided flow: a
-- specification is assessed and frozen, RTL versions are created for it, verified and simulated by
-- runs of openroad-platform-v2, and sent to the GDS flow; the results become evidence.
-- apps/m2_rtl_comparison compares two RTL generators, apps/m3_orfs_comparison a baseline with an
-- agent, and apps/m4_script_lab takes patches of registered recipes through confirmation to a run.
-- Each service keeps its records in an SQLite store; M1 also keeps them in dictionaries. The server
-- of M1 answers HTTP requests with its service, for the caller that v2 names. The adapters of
-- integrations/ are the programs that v2 starts for a run.
--
-- The files, with the code that they model.
--   Prelude: Python's exceptions (Result), methods whose writes survive a raise (Action), `str`
--     (Text, Lines), `dict` (Dict), tables with a primary key (Table), lists (Lists), JSON values
--     (Json) and the reading of them (Document).
--   Contracts.Versioned, Platform, Planning: platform.py of openroad_platform_contracts, with
--     Planning.Repairs for a proof.
--     Contracts.RtlFrontend: rtl_frontend.py, with Documents for `to_dict` and `from_dict` of
--     specifications, and Laws, Roundtrip and Reading for proofs.
--     Contracts.Evidence: evidence_exchange.py. Contracts.Catalog, Script: teaching_catalog.py.
--   M1.Models, M1.Documents: models.py of apps/m1_rtl_to_gds/src/openroad_app_m1.
--     M1.Store: store.py. The others model service.py: M1.State (the attributes and private
--     helpers), M1.Sessions (`assess_spec`, `freeze_spec`), M1.Versions (`create_rtl_version`, `record_verification`,
--     `record_simulation`), M1.V2 (the exchange with v2), M1.Requests and M1.Requests.Gds (the
--     `build_..._request` methods), M1.Submit (the `submit_...` methods,
--     `register_verification_package`), M1.Evidence (`record_evidence`, `record_gds_evidence`),
--     M1.Runs (`assert_run_owner`, `observe_run`), M1.Reload (`__init__` and `open`).
--   M1.Server: what the handlers of server.py share; M1.Server.Routes: the tests on the path;
--     M1.Server.Post, Specs, Get and GetRuns: `do_POST`, `do_GET` and their helpers. M1.Oracles:
--     oracles.py. `DirectLLMGenerator.generate` of generator.py is in M1.Server.Specs.
--     M1.Server.Ends, Histories, Access, Freeze, Roundtrip and Body: proofs about requests.
--   M1.Ends: rules that say where an operation can end. M1.History, M1.Durable, M1.Provenance,
--     M1.Gates, M1.Results, M1.Access, M1.Settled, M1.Reload and M1.Edges: proofs about the
--     service.
--   M2, M3, M4: service.py and store.py of the other applications, with M2.Created, M3.Attempts,
--     M4.Admission, M4.Lifecycle and M4.Unchecked for their proofs.
--   Integrations.RandomControl: `_propose` of
--     integrations/seeded_random_control/seeded_random_control_adapter.py, with Draws for its proof.
--     Integrations.RtlVerify: integrations/rtl_verify/adapter.py, with Request and Exit for its
--     proof.
--   The modules called Tests hold concrete records and runs.
--
-- The correspondence. A dataclass is a record with its fields, an enum a data type. A method of a
-- service is a function from the attributes to a result and the attributes after it, and a write
-- before a raise stays. Loops over lists are structural recursion, so nothing needs fuel. `int` is
-- a type of integers without bound, as in Python. An exception is its class and its message.
--
-- Parameters. The client of openroad-platform-v2 is a record of functions that may raise; SHA-256,
-- `json.dumps`, `datetime.fromisoformat` and `str` of a value that is no text are fields of `Stdlib`. A fresh `uuid4`, the current
-- time and measured durations are arguments. The LLM provider, `repr`, the files under web/ and the
-- replies of the catalog and of the netlist view are fields of `App`; each request to the server
-- brings its client of v2, in `WebClient`.
--
-- Not modelled. The `isinstance` tests of annotated fields, since each field has the type of its
-- annotation. The text of stored JSON documents: a stored payload is represented by its record.
-- `from_dict` of records other than `PortSpec` and `SpecIR`. The bytes of HTTP, the threads of the
-- server, by which requests can overlap, the servers of M2 to M4, the clients' HTTP calls, and the
-- process start. The catalog and the netlist view of M1 are static data and a rendering.
-- The other code of integrations/ runs external tools. scripts/ and deliverables/ deploy and report.
pub mod Prelude
pub mod Contracts
pub mod M1
pub mod M2
pub mod M3
pub mod M4
pub mod Integrations
