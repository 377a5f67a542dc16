-- ===== src/Lib.antt =====
-- KITT, the benchmark runner for local inference engines: its campaigns, the engines they run and
-- the server that agents register with.
--
-- Campaigns (Campaign, from src/kitt/campaign). A campaign plans one run for each model and engine
-- that fit (CampaignScheduler.plan_runs: Scheduler), expands the placeholders into quantizations
-- and estimates their sizes (_expand_runs, estimate_quant_size_gb: Expand, Sizes), enters them in
-- its state (_register_runs: Expand) and carries out those that are not done (CampaignRunner.run:
-- Runner; _execute_run: Execute; _download_model and _cleanup_model: Transfer). The state is a list
-- of runs that CampaignStateManager keeps in memory and writes to a folder of JSON files (State,
-- Manager; Saved is the JSON object of a state, written and read). Config holds the data of models.py
-- and result.py.
--
-- The runner is code that mutates a state, calls out and catches exceptions. It is written in the
-- small monad of Prelude.Exec, with `raise` and `try` where the source raises and catches, on a
-- Session: the folder, the state, the number of questions asked so far and a trace of the actions.
-- What lies outside (clocks, the disk, the hub, Devon, Docker, the kitt subprocess) answers through
-- a World, a record of functions of the number of the question, so a theorem holds for every
-- sequence of answers. The rules of Prelude.Exec.Rules carry an observation, a postcondition or
-- termination through the code.
--
-- Engines (Engines, from src/kitt/engines). Recovery is HealthRecoveryManager, the retries of a
-- generation with restarts; its loop is a recursion on the attempts that are left. Images is
-- image_resolver.py, the Docker image for the hardware, with its caches as a state and the user's file,
-- whatever it holds.
--
-- Server (Web, from src/kitt/web). Database holds the tables as lists of rows; Agents is
-- AgentManager of web/services/agent_manager.py: Tokens, Registration, Commands, Heartbeat and
-- Stale. Events is the bus of web/services/event_bus.py. The service's write lock makes each
-- operation one step. Commands reach an agent as rows of quick_tests, which its next heartbeat
-- dispatches. QuickTests is web/api/v1/quicktest.py: launches, reports and logs of tests; Delivery
-- puts the operations of the server into a step relation. Campaigns is
-- web/services/campaign_service.py. Execution is web/services/campaign_executor.py: Run goes
-- through the runs of a campaign, and Wait polls for the end of each. The executor shares the
-- database with other threads, which are a function of the database that acts at each sleep; its
-- clock is a function of the sleeps and readings so far. A wait takes at most 360 sleeps of 5 s in
-- its 1800 s, so it has 361 rounds of fuel.
--
-- Recommendations (Recommend, from src/kitt/recommend). The latest result of each model and engine
-- is filtered, scored and ranked, and the Pareto frontier of accuracy and throughput is found.
--
-- Benchmarks (Benchmarks, from src/kitt/benchmarks/loader.py and src/kitt/runners/checkpoint.py). A
-- benchmark puts its prompts to the engine in turn and writes checkpoints, from which a later run
-- goes on. Resume follows runs without errors, Forgotten a run with one. Suites is
-- src/kitt/runners/suite.py with single_test.py: the benchmarks of a suite, each run as often as
-- its configuration says.
--
-- Agent (agent-package/src/kitt_agent). HeartbeatThread is the thread of heartbeat.py, with its
-- intervals, its requests and its registration; a request that fails registers and tries again at
-- most once, so a heartbeat has two attempts of fuel. AgentDaemon is daemon.py: the dispatch of
-- commands, which AgentDaemon.Known compares with the commands of the server, and in
-- AgentDaemon.Execute the threads of the commands (_execute_container, _execute_start_engine,
-- _execute_install_engine, and Test for _execute_test). Docker, processes and engines are a World
-- whose calls may raise.
--
-- Stored results (Storage, from src/kitt/storage/json_store.py). Json holds the values of JSON with
-- Python's comparisons, Files the scan of the directory, whose files are a list of paths with what
-- their text parses to, and JsonStore the operations with their cache. Nobody else writes the files
-- between two operations.
--
-- Stacks (Stack, from src/kitt/stack). Services and Generate are generator.py, Stack itself and
-- Registry are config.py. Closed, Variables with Supplied, and Dockerfiles compare what the compose
-- file names with what the generator declares and writes.
--
-- GGUF files (Gguf, from src/kitt/campaign/gguf_discovery.py). Names has the two regular
-- expressions, matched by hand, Discover the groups of files, the tags and the search of a model's
-- path, and Prefix the longest common prefix, whose rounds are at most the length of the first
-- text.
--
-- Floats are bit patterns with the interpreter's operations as a parameter (Prelude.Floats); texts
-- that the code walks through are lists of code points (Prelude.Text), with case and white space of
-- ASCII. Paths are lists of their parts (Prelude.Paths). Loops are structural recursions, and only
-- the wait, the heartbeat and the prefix above have fuel.
--
-- Not modelled: file formats and logging, notification text, the simulator of test agents, the
-- parallel runner, other benchmarks, reporters, the SQL stores and the aggregates of the JSON
-- store, the rest of the agent package and the command line: they are input and output, calls of
-- libraries, or remain to be done.
--
-- Examples holds concrete campaigns, engines and tables on which the theorems are tried.
pub mod AgentDaemon
pub mod AgentStorage
pub mod Benchmarks
pub mod Campaign
pub mod Engines
pub mod Examples
pub mod Gguf
pub mod HeartbeatThread
pub mod Prelude
pub mod Recommend
pub mod Stack
pub mod Storage
pub mod Suites
pub mod Web
