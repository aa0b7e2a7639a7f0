-- ===== src/Lib.antt =====
-- inspectah inspects RHEL-like hosts, writes one snapshot for each, merges the snapshots of a fleet into one, and
-- turns a snapshot into the files of a bootable container image. This library models the parts of the
-- Python package src/inspectah that decide what goes into an image: the merge of a fleet, the layers of
-- several fleets, the packages that were asked for and those to install, the check that the base image's
-- repos have them, the redaction of secrets, sections of the Containerfile and the counts of a report.
--
-- Base: shared names, lists, results, dicts, texts and sorting. A Python dict is a list of pairs in the
-- order of insertion (Base/Dict), a set is a list without repetition, whose order no result depends on
-- unless it is sorted; a raised exception is `raise` (Base/Errors); `sorted` is a stable insertion sort
-- by code points (Base/Sort); int(text) is read with whitespace, signs and underscores, without
-- Python's limit on the number of digits (Base/Integers). A text is a list of characters, and the whitespace and classes of
-- characters are those of ASCII.
-- Schema: the classes of src/inspectah/schema.py as records with the names of their fields. A dict
-- without a class is a document (Schema/Documents); its numbers are naturals.
-- Fleet: src/inspectah/fleet/merge.py and loader.py. Fleet/Prevalence and Fleet/Merge are
-- _prevalence_include and the list merges, over any class of items with a prevalence and an include flag
-- (Fleet/Item, an interface that Fleet/Item/Instances fills for each class of the schema). Fleet/Dedup has the unions,
-- Fleet/Variants the normalization, the digest and _auto_select_variants, Fleet/Collect and
-- Fleet/Sections the sections of merge_snapshots, Fleet/Snapshots the whole of it, Fleet/Strip is _strip_host_lists,
-- Fleet/Names is compute_display_names and assign_display_names, and Fleet/Validate validate_snapshots.
-- SHA-256, repr of a list of pairs and the clock are parameters.
-- Architect: src/inspectah/architect/analyzer.py. Architect/Analyze is analyze_fleets, Architect/Topology
-- has the layers and their moves; turbulence is counted in fiftieths, so that it stays a natural.
-- Heuristic: apply_noise_control of src/inspectah/heuristic.py.
-- Redact: redact_snapshot of src/inspectah/redact.py. Redact/Registry is _CounterRegistry, Redact/Texts
-- _redact_text, Redact/Shadow _redact_shadow_entry, Redact/Sections and Redact/Snapshot the sections and
-- the whole of redact_snapshot. A call has the findings so far and the registry as its state
-- (Redact/Scan), and Redact/Scan/Runs describes it as a run of steps. The matches of `re` are a parameter.
-- Preflight: src/inspectah/rpm_preflight.py. Preflight/Direct is _classify_direct_installs, Preflight/Repos
-- _provider_repo_ids and _detect_unreachable_repos, Preflight/Container
-- _run_checks_in_container, Preflight/Evaluate what it concludes, and Preflight/Run the rest: the files that are
-- staged, and the commands around the checks. A call changes the world, and returns or raises (Preflight/Steps, with
-- try and finally). The state is that of a machine, a parameter with the executor, the files, the clock, a UUID and
-- configparser, where the executor and the calls on files may raise, but not rmtree, whose errors are ignored;
-- Preflight/Log is one machine, which logs what is done to it and answers or raises by an arbitrary oracle.
-- Containerfile: sections of src/inspectah/renderers/containerfile: services.py, network.py and _helpers.py.
-- InstallSet: src/inspectah/install_set.py with the shell filters of
-- src/inspectah/renderers/containerfile/_helpers.py.
-- RpmVersion: _rpmvercmp and _compare_evr of src/inspectah/inspectors/rpm.py.
-- Installed: _detect_duplicates of the same file.
-- Nevra: the parsers of the same file, _parse_nevr, _parse_rpm_qa, _parse_rpm_va and
-- _parse_nevra_pattern; digits are those of ASCII.
-- Leaves: _classify_leaf_auto of the same file, with the queries in Leaves/Queries; their executor returns a
-- result and does not raise.
-- Executor: the result of a command (src/inspectah/executor.py).
-- Triage: src/inspectah/renderers/_triage.py, with the number of FIXME comments of the output as an
-- argument.
-- Tests: runs of the definitions.
--
-- Four loops run on fuel. compute_display_names starts with one more than the number of all segments: each
-- round but the last makes a depth grow, and a depth stops at the number of segments. _rpmvercmp starts
-- with one more than the length of both texts: each round takes a character of one of them. The walk over the
-- dependencies starts with one more than its stack and all edges: each round takes a package from the stack, and a
-- new package pushes no more than its edges. The batches of a list have its length as fuel. Every other loop
-- follows a list.
--
-- Not modelled: the other inspectors, the scan of written files for secrets, the other sections of the
-- Containerfile and the other renderers, the commands, servers and the packaging, which read files, run processes or format text; entropy and scores of secrets, which are
-- floating-point numbers and regular expressions; and the Go launcher under cmd.
pub mod Base
pub mod Schema
pub mod Fleet
pub mod Architect
pub mod Heuristic
pub mod InstallSet
pub mod RpmVersion
pub mod Executor
pub mod Containerfile
pub mod Nevra
pub mod Leaves
pub mod Preflight
pub mod Redact
pub mod Installed
pub mod Triage
pub mod Tests
