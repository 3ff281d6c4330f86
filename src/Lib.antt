-- ===== src/Lib.antt =====
-- A model of the Python programs around the Omashiki house: a handler that turns GitHub events into
-- jobs, the check of a Kata archive, the two halves of the load test, the enrolment of workers, and the
-- virtual machines of the end-to-end run: their prepared image and its making, manifest, SSH files and
-- removal.
--
-- Parts and files
-- - Handler.antt, examples/handler/github_issue_handler.py. GitHub posts events to /github, the house
--   posts the ends of jobs to /omashiki. Handler/Config is `config_from_env`, Handler/Signature the
--   two signature checks, Handler/Slug and Handler/Envelope the mapping of an event to a job,
--   Handler/Terminal the line of `on_terminal`, Handler/Server `submit_job` and the class `Handler`.
--   A request is run in a state that collects the jobs submitted, the lines logged and the responses;
--   what the program takes from outside is the record `World`.
-- - Json.antt, the values of `json.loads` with Python's truth, `get` and `str`; Json/Canonical is
--   `canonical_json` of the handler, Json/Order the order of its keys.
-- - Kata.antt, .scripts/kata_archive_paths.py: the whole script.
-- - FakeLlm.antt, .scripts/loadtest/fake_llm.py, the model provider that a load test talks to.
--   FakeLlm/Settings and FakeLlm/Stats are the classes of these names, and FakeLlm/Stats/Log reads the
--   counters off a list of the calls; FakeLlm/Arguments is `placeholder_for` and
--   `synthesize_arguments`, FakeLlm/Hello the scenario "python-hello", and FakeLlm/Completion
--   `build_completion`, whose ids are arguments. FakeLlm/Stream is `stream_chunks`, FakeLlm/Http the
--   class `Handler`: a request is run in a state of the counters, of what has been written and of
--   whether the connection is to be closed, with exceptions as values.
-- - Drive.antt, .scripts/loadtest/drive.py, the driver that submits jobs. Drive/RunJob is
--   `run_job`, from the submission on, and `iso_ms`; Drive/Envelope is what it submits, Drive/Client
--   the class `Client`, Drive/Sampler the class `Sampler`, Drive/Preflight `preflight`, Drive/Percentile
--   `percentile`, Drive/Report the numbers of `report`, the exit status and the bounds of `parse_args`.
-- - Enroll.antt, .scripts/enroll_worker.py: the request, the errors and `enroll`; Enroll/Health is
--   `wait_for_health`, Enroll/Main `main` after argparse.
-- - Vm.antt, the virtual machine tools. For vm/prepared.py: Vm/Prepared is the fingerprint of a
--   preparation and the paths it decides, Vm/Frame the bytes that are hashed, Vm/Checks the helpers and
--   Vm/Verify the rest of `verify_prepared_base`. For vm/e2e.py: Vm/Manifest is `validate_manifest`
--   with its helpers, section by section; Vm/Lines is `atomic_line_update`, the programs that edit,
--   record and restore a guest's SSH files, and `snapshot_without_line`; Vm/Owned is `domain_owned` and
--   `volume_owned`, Vm/Machines `remove_owned_vms` and `domain_snapshot`, Vm/Machines/Stop
--   `stop_owned_vms`, Vm/Machines/Persisted `verify_persisted_vms`; Vm/Cleanup/Steps is `cleanup`, from steps whose results are fields of its
--   `World`, and Vm/Cleanup/Exit what `run` does once its work has ended; Vm/Teardown joins these
--   with the machines. For vm/prepare.py:
--   Vm/Prepare/Staging is `cleanup_owned_staging`, Vm/Prepare/Publish `current_is_valid`,
--   `recover_pending_publication` and `publish`, Vm/Prepare/Build `build` and what `main` makes of it;
--   Vm/Prepare/Orderly says what each change takes for granted. Vm/Pattern has the regular expressions
--   of these programs, Vm/Xml what they use of `xml.etree.ElementTree`.
-- - Common.antt: numbers, lists, texts as lists of code points, results, and Python's methods on
--   texts (strip, split, startswith, the decimal form of a number); Common/Runs has programs that change
--   a state, and what is sure before and after them.
--
-- Conventions
-- - An exception is a value of a result type: `HandlerError` and `JSONDecodeError`, which the handler
--   catches, and `uncaught` for what it does not.
-- - Parameters stand for code that is not in the repository: HMAC-SHA256, `str.lower`, `json.loads`,
--   `json.dumps`, `repr`, `re.search`, `int`, `datetime.fromisoformat`, clocks, random numbers, the
--   file system and the network. What a theorem relies on of them is its hypothesis.
-- - Floats: a JSON float is carried as its text; the stub's pause is counted in hundredths of a
--   millisecond, so that a percentage of it is exact, and the rounding of floats is not modelled.
-- - Fuel: `decimal` has one more than the number, which halts it since a division by ten lowers a
--   number that is not 0; `converse`, `run_job`, `wait_for_health` and the wait of `stop_owned_vms` have
--   theirs as an argument, and a theorem each says how much is enough. The pages of `_list_status` have
--   one too: the house decides how many there are, and without fuel the sampler has no result.
-- - virsh: a run of `stop_owned_vms`, `verify_persisted_vms`, `remove_owned_vms` or `build` starts from
--   the commands given so far and their replies and ends with these and its own; what virsh replies may depend on all of them,
--   and so may the files in Vm/Prepare, whose changes are events among the commands. A set
--   of names is a list, in the order in which the set is run through.
-- - Files: those that `verify_prepared_base` reads stay as they are during its run. A file that
--   Vm/Lines edits is its bytes and its mode; the temporary file and its renaming are one step.
-- - Threads: each method of `Stats` holds the lock, so a run of threads is a sequence of its calls.
--
-- - Signatures: HMAC-SHA256 takes the bytes of the key and of the message. `str.encode` is the text
--   itself where it has no surrogate, and an uncaught error otherwise.
--
-- Not modelled: sockets and HTTP headers, threads; a few failures outside the properties, which are
-- the time limit of virsh's commands in a clean-up, an exception out of `cleanup`, an uncaught error of
-- one poll of a job, and a ValueError raised by the connection of an enrolment, which counts as
-- uncaught; what the driver's report says of errors and of the
-- wall clock, the command lines, and the end-to-end scripts; of the virtual machine tools the commands
-- by which vm/prepare.py makes and fills its machine, `atomic_write_json`, and what the end-to-end run
-- does between the test of the manifest and the removal of its machines, most of which runs commands
-- on other hosts; and the house itself, which is written in Elixir.
mod Common
pub mod Json
pub mod Handler
pub mod FakeLlm
pub mod Drive
pub mod Kata
pub mod Enroll
pub mod Vm
