-- ===== src/Lib.antt =====
-- The Python tools of this repository for CAN and CANopen, with the theorems that make them correct.
--
-- can-tcp-bridge/can-tcp-bridge-server/can_tcp_bridge.py relays CAN messages over a TCP connection.
-- One loop reads the bus and writes framed records to the peer's socket; the other reads the socket,
-- splits the bytes into records and sends the messages on the bus.
--   Frame     frame_from_can, can_from_frame and the two struct formats. A can.Message of python-can
--             is a parameter (`CanMessage`), with what the library documents of its constructor
--             (`CanMessageLaws`).
--   Framer    TCPFramer. `drain` is the loop that calls next_record until it returns None; its fuel
--             is the number of bytes, and a record takes two at least.
--   Bridge    Bridge._loop_tcp_to_can (Inbound) and Bridge._loop_can_to_tcp (Outbound), each a function
--             of the outcomes of its blocking calls, one entry for each round: the stop event, the
--             socket, what was received, and what the send raised. Link is _tcp_manager with
--             _accept_once, _connect_once and set_tcp_keepalive; it takes the other thread's stop as
--             given. Threads is _tcp_manager again, beside stop: a step relation of two threads, one
--             access to what they share at a time. Config is DEFAULT_CONFIG and load_config, from
--             what parsing the file gave on, with its section can as bring_up_interface reads it (Section,
--             Asked). Process is bring_up_interface, make_bus, Bridge.start, Bridge.stop and main
--             over a log of the calls that they make, whose replies are the environment's.
--
-- can-tcp-bridge/can-tcp-bridge-client/src/main.c is the peer of the bridge on an ESP32.
--   Client    tcp_send_can_frame, can_from_tcp_parts, and what the loop of main makes of the bytes of
--             the socket, one turn for each record and each unit of fuel; a record takes one turn.
--             Sends and Receives compare its records with those of Frame, and Streams the two loops.
--
-- firmware-update/co-firmware-update.py updates the firmware of a CANopen device.
--   Firmware  wait_for_flash_status_ok and flash_firmware (Flash) over a log of the calls made outside
--             the program (Device). The answer to a call may depend on the whole log, and so may the
--             clock, in milliseconds. Protocol is the specification: an automaton over the log.
--             A wait takes fuel; 122 rounds are enough for its 60 seconds when a sleep takes half a
--             second. The copy of the file takes one round more than the file has bytes.
--             Objects is its object dictionary, with the accesses that the calls stand for. Main is
--             load_config and main, from the parsed arguments and the parsed file on.
--
-- canopen-interactive/co.py is a menu for the nodes of a network.
--   Interactive  its flash_firmware (Flash), over the same calls and the same specification as the
--             firmware update (Conforms), and the tables and callbacks of EventMonitor (Monitor); the
--             callback lists of python-canopen are a parameter (`Callbacks`), with what the tool
--             relies on (`CallbacksLaws`). Monitor.Races lets a callback wait for the lock, and
--             Monitor.Render is the text that is printed. Refresh is the screen, as a step relation of its threads.
--             Text holds what the tool uses of Python's texts, and the lists of values. Session is
--             the loop of choose_eds, choose_od_entry, choose_node, send_nmt and send_pdo that asks
--             for a number, over what input returns or raises, call by call. Menu is a monad of
--             such inputs and a state, and holds add_node, choose_node and send_nmt (Nodes),
--             send_pdo (Pdo), read_sdo and write_sdo (Sdo, Objects), the subscription menus
--             (Subscribe), what the actions that only print wait for (Show), the questions of the firmware
--             update (Flash), and main with its loop (Main), whose options are put in (Options).
--             Start holds the EDS files of the command line and the text of the menu. The loop takes a turn
--             for each unit of fuel, and one turn more than there are inputs is enough. python-canopen
--             is a parameter (`Canopen`), whose calls are logged, and so is the host (`Host`).
--
-- scripts/owl_install_canopen_tools.py is a west command that runs the setup scripts.
--   Install   its do_run, over what the file system and the scripts answer.
--
-- Prelude holds the shared notation and the lemmas on lists and bit masks, Outcome the exception
-- classes that the handlers tell apart, and Tests concrete runs.
--
-- Numbers are natural numbers, and integers where a prompt reads them; bytes are numbers below 256.
-- `int`, `upper` and `lower` are modelled on the digits and letters of ASCII. Not modelled: the logging
-- and most of the console output, the progress bar, the parsing of command lines and configuration
-- files (argparse and PyYAML), the table of show_node_od_info, the connection set-up of
-- the C client, and the Rust viewer.
pub mod Prelude
pub mod Outcome
pub mod Frame
pub mod Framer
pub mod Bridge
pub mod Client
pub mod Firmware
pub mod Interactive
pub mod Install
pub mod Tests
