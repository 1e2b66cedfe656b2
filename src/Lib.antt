-- ===== src/Lib.antt =====
-- A framework for tests on hardware, and the services around it.
--
-- The test runner service (helpers/test-runner-service) builds, pulls and runs test images, one
-- operation at a time. `Runner` models it: `Models` the record of an operation (models.py),
-- `Settings` the configuration (settings.py), `Docker` the commands (docker_commands.py), `Store` the
-- record on disk (state.py), `Artifacts` the reports of a run (artifacts.py), `Portal` the lookup in
-- ReportPortal (reportportal.py), `Execute` and `Coordinator` the operations (worker.py). The two
-- coroutines of worker.py are cut at their awaits: `Await` names a place with its local variables,
-- and `resume` runs on from there. `Coordinator.step` is one event of the service: a call of a method
-- of OperationCoordinator, a turn of the event loop, or a restart of the process; a history is a list
-- of events, and `run` performs it. What processes, servers and files give is in the events and in
-- `World`.
--
-- A test stand (src/hardware_test/stand/stand.py) holds devices by role: `Stand`. The exceptions that
-- transports raise are a function of the number of the call and of the call.
--
-- The serial agent (helpers/serial-agent) owns one serial device and answers JSON requests:
-- `Agent.Protocol` (protocol.py), `Agent.Serial` (agent.py) and `Agent.Stream` (the loop of
-- __main__.py). JSON, Base64 and pyserial are parameters.
--
-- `Runner.Validation` has the validators of the settings, `Runner.Auth` the authentication of requests
-- and its routes (auth.py), and `Runner.Oidc` the client of the identity provider (oidc.py): a call of it
-- is a function from the client to the client and a result, so that what it cached stays when it raises.
-- `Runner.Api` has the routes over the coordinator and the event stream (api.py), which reads the log's
-- bytes by lines: the decoding of a line and the numbers of `tell` are parameters. `Runner.Processes` has
-- the run of a command with its log (processes.py), over what `readline` gives. HMAC, Base64, JSON, PyJWT, the network and the clock
-- are parameters.
--
-- `Inventory` (src/hardware_test/inventory) reads the stands and devices, `Factory`
-- (src/hardware_test/factory) makes a `Stand` of them, with the transports of `Stand.Injected`, and `Console`
-- (src/hardware_test/transport/console.py) is the login on a device's console and the execution of a
-- command there (with models/command.py), and the channel of a local port (transport/pyserial.py). The
-- factory is stated over the inventory, and the console over the factory's configuration.
--
-- `Scenarios` (src/hardware_test/scenarios.py) and `Plugin` (src/hardware_test/pytest_plugin.py) select
-- and order the tests of a session.
--
-- `Paths` is the part of Python's pathlib that these use, and `Prelude` the shared helpers.
--
-- Bounds: `Progress.drive` runs a coroutine on fuel; a coroutine has at most six turns, and the
-- theorem on it gives six. `Agent.Stream.serve` takes at most one turn for each byte of the input, and
-- one more. `Console.Serial.send_view` takes one turn for each byte of a payload at most. The loops that
-- wait (`Console`, `Runner.Api.Stream`) take a list of what their turns find; it ends where time is up
-- or nobody listens. All other functions are structural. Python's integers are unbounded; counts are natural
-- numbers.
--
-- Not modelled: the text of the record on disk, the start of the service (main.py), the connections over
-- SSH and to a serial port, the session directory and metadata of the pytest plugin, the device classes, whose methods
-- pass a command on, and the web interface. A file system that raises is not modelled: files answer. `urlopen`
-- follows redirects by itself: a request is what the client asks for. The calls of the identity
-- provider's client and the routes do not overlap.
pub mod Prelude
pub mod Paths
pub mod Runner
pub mod Stand
pub mod Agent
pub mod Scenarios
pub mod Inventory
pub mod Factory
pub mod Console
pub mod Plugin
