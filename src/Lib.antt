-- ===== src/Lib.antt =====
-- The verification library of gpu-node-health.
--
-- The program has two processes. The agent (agent/gpu_health_agent) runs on every GPU node, reads
-- the kernel log and other signals and publishes them as node conditions. The guard
-- (guard/gpu_node_guard) is one Deployment: it reads those conditions through the API server, decides
-- which nodes to cordon, and deletes exporter pods that do not answer.
--
-- Files and code, for the guard:
--   Guard/Policy.antt        guard/gpu_node_guard/policy.py: `trigger_level`, `healthy_capacity`,
--                            `decide` with one function for the body of its loop (`decide_node`, and
--                            `judge` below the test for a level), `node_states`
--   Guard/Policy/Types.antt  its conditions, nodes, levels, reasons and decisions, and the
--                            `_PolicyConfig` of guard/gpu_node_guard/config.py
--   Guard/Policy/Messages.antt  the texts of its decisions
--   Guard/Supervisor.antt    guard/gpu_node_guard/supervisor.py: `ExporterSupervisor.evaluate`, its two
--                            dicts as association lists; the texts in Guard/Supervisor/Messages.antt
--   Guard/World.antt         the state of guard/gpu_node_guard/main.py, the requests that it sends
--                            through guard/gpu_node_guard/k8s.py, and their answers
--   Guard/Time.antt          `parse_time`, `rfc3339` and `rfc3339_micro` of guard/gpu_node_guard/k8s.py, with what
--                            `gmtime`, `strptime` and `timegm` do in them
--   Guard/Lease.antt         `Leader.acquire_or_renew` of guard/gpu_node_guard/main.py
--   Guard/Loop.antt          `Guard._event`, `_run_nodes`, `_run_exporters`, `loop_once` and one round
--                            of `run_forever`
--   Guard/Config.antt        guard/gpu_node_guard/config.py: `Config` over the environment
--   Guard/Metrics.antt       guard/gpu_node_guard/metrics.py: `Registry` and every series of `render`
--   Guard/Serving.antt       `Handler.do_GET` of guard/gpu_node_guard/main.py
-- Files and code, for the agent:
--   Agent/Signals.antt       the dicts that the signal sources hand to the evaluator
--   Agent/Kernlog.antt       agent/gpu_health_agent/signals/kernlog.py: `_match`, `_consume`, and `_pump` for
--                            one path; `_run` over its paths in Agent/Kernlog/Watcher.antt
--   Agent/Proc.antt          agent/gpu_health_agent/signals/dstate.py: `_read_stat`, `_read_wchan`, `_iter_tasks`
--                            and `DStateCensus.collect` over what /proc holds
--   Agent/Census.antt        its census itself, with the dict of first sightings, over the threads
--   Agent/Endpoint.antt      agent/gpu_health_agent/signals/exporter.py: `NodeLocalEndpointResolver`, and
--                            how `ExporterProbe.collect` reaches the exporter
--   Agent/Probe.antt         what `ExporterProbe.collect` reads in the text that the exporter serves
--   Agent/PatchCounters.antt  agent/gpu_health_agent/signals/patchctr.py
--   Agent/Conditions.antt    agent/gpu_health_agent/conditions.py: `ConditionEvaluator.evaluate`,
--                            with the five conditions themselves in Agent/Conditions/Infos.antt
--   Agent/Collector.antt     agent/gpu_health_agent/main.py: `Collector.collect_once`
--   Agent/Publisher.antt     agent/gpu_health_agent/main.py: `ConditionPublisher.publish`
--   Agent/Metrics.antt       agent/gpu_health_agent/metrics.py: `_esc` and `_Buf`; `render` in
--                            Agent/Metrics/Render.antt
--   Agent/Config.antt        agent/gpu_health_agent/config.py: `Config` over the environment, and `validate`
--   Agent/Serving.antt       agent/gpu_health_agent/main.py: `Handler.do_GET` and the loop of `main`
-- Recorder.antt models `guard_view` of tools/stress-recorder.py, which reads the metrics of the guard, and
-- Recorder/NodeView.antt its `node_view`, which reads the conditions on the Node.
-- Contract.antt joins the two: the Node after a publish of the agent, as the guard reads it.
-- The other files below Agent, Contract, Guard and Recorder hold lemmas, theorems and tests, named for
-- what they prove. Base.antt and the files below it are shared: Boolean tests, integers, lists, dicts
-- as association lists, the print and the parse of numbers, Python's operations on texts, and the
-- environment.
--
-- The policy and the supervisor are pure: the clock, `parse_time`, the scrape and the configuration
-- are arguments. The loop is a function from the state before to the outcome and the state after; what
-- was done before an exception stays done. The answers of the API server to one round are a
-- parameter (`Cluster`). `parse_time` and the print of a time stamp are parameters of the policy and of
-- the loop: no theorem on these assumes anything of them, and Guard/Loop/Exclusion.antt takes for them
-- the functions of Guard/Time.antt. The readings of the agent's sources, the answers of the file
-- system (`Disk`) and the regular expressions of the kernel log (`search`) are parameters in the same way.
--
-- Times are whole microseconds on an integer axis, where the code has floats; durations of the
-- configuration are whole seconds, as there. Integers have no bound, as in Python.
--
-- The characters of a text are those of Python. `lower` and the digits that `int` reads are those of
-- ASCII. `float` is a parameter, and so are the endpoints that an API server answers with.
--
-- Every loop is structural recursion over the list or the text that the code loops over, but for three
-- on fuel. The decimal print takes a number as fuel for its own digits, since each round divides it by
-- ten; the search for labels takes the length of the text, since each match and each step past a
-- character consumes one; the walk over the years of a date takes a unit for each 365 days.
--
-- Not modelled: the JSON print and parser, the HTTP transport, the rounding of the census's longest times in its own dict,
-- logging, the threads and their lock, signals, the name and time stamp of an Event, the sleep between
-- rounds, the rest of a Lease, which the code sends back as it read it, and of the recorder its
-- calls of kubectl, its marker file and its rows.
pub mod Agent
pub mod Base
pub mod Contract
pub mod Guard
pub mod Recorder
