-- ===== src/Lib.antt =====
-- Verification of the LLM evaluation lab.
--
-- The lab (evaluation_lab.py) reads documents of evaluation cases, runs policies over them, judges
-- the run against a known-bad baseline, and keeps the runs in an SQLite store. The Search Cup
-- (search_cup/) lets four entrants search for leads behind metered tools, freezes what they submit,
-- and judges it against a hidden registry. Its protocol (search_cup/v23_*.py, protocol_v23.py)
-- describes a search by a closed schema and accounts for what it consumed.
--
-- Base, Text, Json: shared notation and lemmas; Python's `str.strip`; parsed JSON documents and
-- `dict.get`; Json.Keys: the fields in the order in which `json.dumps(…, sort_keys=True)` writes
-- them. A JSON object is its fields, the first of a name being the one that is read.
-- Lab.Error, Lab.Read: the errors that the lab raises, one constructor for each message, and the
-- typed reads of a field (`_required_text`, `_positive_integer`). A function that raises returns
-- `Result Error`.
-- Lab.Cases: `_validate_cases`, with a printer of cases for the round trip.
-- Lab.Historical: `_validate_mechanisms`, `_validate_historical_cases` and
-- `load_historical_benchmark`. The set of variants seen of each mechanism is a function.
-- Lab.Policy and Lab.Benchmark: `evaluate_policy`, `evaluate_historical_policy`, the two reference
-- policies and `run_historical_benchmark`. The loops keep their counters in a record.
-- Lab.Mitigation and Lab.Closure: `validate_mitigation_spec`, `load_case_suite` and `run_experiment`,
-- with the Companion-Mind package as the parameter `CompanionMind`.
-- Lab.Store: `persist_experiment_run`, `list_experiment_runs` and `get_experiment_run`. A database
-- file is `none` where there is none; every operation takes it and returns it.
--
-- Cup.Error, Cup.Contracts, Cup.Documents: the exceptions, contracts.py with the checks that
-- constructing a contract runs, and its JSON documents; Cup.Competition: the candidate card and the
-- competition spec; Cup.Registry: the judge's snapshot.
-- Cup.Tools: tools.py. A proxy is passed in and out of `search`; the backend, the clock and the
-- request identifier are arguments of each call.
-- Cup.Runner: runner.py; Cup.Runner.Adapter: providers.py, a provider being the tree of its tool calls
-- and of its answers to their results. Cup.Runner uses Cup.Tools only through `play`.
-- Cup.Judge, Cup.Scorecard, Cup.Scores: judge.py, the judgment of one lead, the document of a score,
-- and the scores of a match. Cup.Scores.Match runs Cup.Runner and then the judge on its match.
--
-- Protocol.Numbers, Protocol.Schema, Protocol.Shapes: Python's comparison and equality of JSON
-- values, `validate_shape`, and the schemas of v23_schema.py. Protocol.Safety, Protocol.Seal: the
-- content scanner and the seals of protocol_v23.py. Protocol.Measure, Protocol.Event,
-- Protocol.Ledger, Protocol.Receipt: v23_accounting.py. A ledger is its spec, its run and its events;
-- Protocol.Receipt reads the events of Protocol.Ledger, and both check documents with
-- Protocol.Schema and Protocol.Safety. An event is the typed content of its document, which
-- `event_json` writes, and the checks of its shape run on that document. Protocol.Controls and
-- Protocol.Spec: `SearchSpecV2.validate` on the JSON document; Protocol.Spec.Reader reads from it what
-- a ledger uses. Protocol.Gate: `instance_gate` and the check of each kind of artifact, which
-- uses Protocol.Package, Protocol.Record and the checks of specs. Protocol.Compare:
-- `require_successor` and `compare_controls`. Protocol.Pool, with Protocol.Pool.Candidates, which
-- builds one, Protocol.Package, Protocol.Record, Protocol.Journal: v23_judgment.py. A journal is its
-- package, its judges and its entries; Protocol.Package validates the spec that a package holds by
-- Protocol.Spec.
--
-- Parameters: the rounding of Python's float arithmetic (Lab.Float), and what the store uses of
-- `str`, `float` and `json` (the record `Python` of Lab.Store); canonical JSON, SHA-256, `lower` and
-- `float` of an integer for the Search Cup (`Runtime`), and the float operations on means (`Scoring`).
-- For the protocol: `re.search`, `unquote` and `lower` (`Texts`), `datetime` (`Clock`), NFKC,
-- `casefold` and `split` (`Unicode`), and Python's `sum`.
-- Every recursion is structural but one: the loop that follows an event's retries (`chase`) has one
-- round for each prior event, which Protocol.Ledger.Retries shows to be enough.
--
-- Not modelled: reading files and the JSON block of a Markdown document, rendering of reports, the
-- command line, the web service, damaged databases, a provider that never stops or that raises a BaseException, fixture factories that raise, reading a receipt
-- back (`validate_resource_receipt`), metric ratios and the output checks of protocol_v23.py, and
-- the modules under search_cup/, b2/ and tools/ that are not named above.
pub mod Base
pub mod Text
pub mod Json
pub mod Lab
pub mod Cup
pub mod Protocol
