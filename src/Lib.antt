-- ===== src/Lib.antt =====
-- A model of the firmware of ByteWaterlevel, an ESP32 board that measures the level of a tank,
-- drives two relays by hand, by timer or automatically, and talks to a browser, to an MQTT broker
-- and to an update server.
--
-- The program is a set of handlers with file-level variables, one source file each under `src/`.
-- The Arduino functions `setup` and `loop` of `src/main.cpp` call them in turn; requests of the
-- asynchronous web server, the ADC task and the listeners of the MQTT client run in between. Here
-- the variables of a handler, with the hardware it drives, are a record, and each function of it is
-- a function that takes the record and returns the next one:
--
-- Settings: `src/InternalConfig.h`, the constants.
-- Device: `src/DeviceHandler.cpp`. State holds the variables and the output pins; Relays
-- `setRelais`, `setRelaisDuration`, `handleRelais`, `getState`, `getDuration`; Blink `handleBlink`;
-- Sensors `readVoltage`, `getLevel`, `getVolume`, `handleScan` and the ADC task; Display the OLED;
-- Loop `DeviceHandler::setup` and `DeviceHandler::loop`.
-- Automation: `src/AutomationHandler.cpp`, with the device whose relays it switches.
-- Files: `src/FileHandler.cpp`, with the flash as a function from paths to texts.
-- Mqtt, Wifi, Ota: `src/MQTTHandler.cpp`, `src/WiFiHandler.cpp`, `src/OTAHandler.cpp`. The calls of
-- the client libraries, with their arguments, are recorded in order in the list `calls`.
-- Matter: `disabled/MatterHandler.cpp`, which the build leaves out, over a library of plugins that
-- is a parameter, with what happens in it between two passes of the loop.
-- World: the states of all handlers, the answers of the web server and the wish to restart.
-- Web: `src/WebHandler.cpp`, the routes as functions from a request and a world to a world.
-- Firmware: `src/main.cpp`, and runs: sequences of passes of the loop, requests of every route, ADC
-- tasks and MQTT connections. A pass is one step, or each of its handlers is one (Turns), so that
-- requests, which the web server handles in a task of its own, come between any two handlers. Start
-- has the same for `setup`, whose later parts run while the web server is already serving; Settings
-- what the handlers took from the configuration; Clocks the times that they keep; Stored the
-- configuration in memory and on the flash; Unsaved a save that the flash refuses; Start.Mixed one
-- that comes while the start goes on; Blank the start without a configuration; Overflow what a full
-- tank does to a pass, and Protection what a full and an empty one do to a run.
-- Device.Relays.Tasks goes down to the statements of `handleRelais` and `setRelais`: either task may
-- go on behind any statement of the other; its modules say when that is as if each call were one step
-- (Atomic, Calm), and what holds where it is not (Kept, Race). Elsewhere a request does not interrupt
-- a handler.
-- Floats and Json: what the firmware uses of IEEE arithmetic and of ArduinoJson, as records of
-- operations. Laws that a theorem relies on are records of their own (IsOrdered, IsMonotone,
-- IsExact, IsDocument, IsFresh, HasElements, IsBlank, HasDepth, IsPretty); that a document is read back
-- (ReadsBack) is asked only of the documents that a theorem saves or resets to. Floats.Milli, Json.Tree
-- and Json.Plain are instances that meet them, which the Tests use.
-- Specifications: Device.Relays.Bank says what the relays are meant to be, two switches with an
-- output and a time to go off; Automation.Bank says what the automation asks of them, and
-- Firmware.Bank what a run of the whole firmware does. Wifi.Recovery has the passes of the Wi-Fi
-- loop as a relation, and says of one whether a connection is reported only while the station is
-- on. Mqtt.Polls has the passes of the MQTT client with the time between them. Web.Status has the
-- documents of the API as tables. Firmware.Configured says what a start makes of a configuration:
-- the settings of every handler and the calls of the libraries of Wi-Fi, MQTT and the updates.
-- Prelude: shared names, machine words and integers. Tests: runs and concrete inputs.
--
-- An `unsigned long` is a number below 2 ^ 32 with its wrap-around written out, an `int` a whole
-- number that is converted as the target converts it. The clock is an argument: a handler that
-- reads `millis()` several times in one call is given one value. So are the levels of input pins,
-- the results of the ADC, the temperature and the state of connections. `setRelais` with an unknown
-- channel writes to an unset pin: that pin is the argument `stray`.
--
-- Loops are recursion on a count or a list. `merge_json_objects` takes fuel for the depth of its
-- recursion, which goes one level down in the source document at each call. Documents are values:
-- where the source passes a reference into a nested object, the model sets the member after the
-- recursive call.
--
-- Not modelled: the functions that only read the state of a library (`isConnected`, `checkWAN`,
-- `getRSSI`, `getCPUTemperature`; their results are arguments), serial output, pin modes,
-- delays, how the flash is mounted (`begin` is what that leaves of it), the start of the web
-- server and its headers, the disconnect listener (it prints), and what the libraries do with
-- the calls they get. A restart is recorded as a wish. Firmware.Lives has what happens then: a
-- life is a start and a run, and the next one begins with the flash that it leaves. The page in
-- `data/` and the build files are not modelled.
pub mod Prelude
pub mod Settings
pub mod Floats
pub mod Json
pub mod Files
pub mod Device
pub mod Automation
pub mod Mqtt
pub mod Wifi
pub mod Ota
pub mod Matter
pub mod World
pub mod Web
pub mod Firmware
pub mod Tests
