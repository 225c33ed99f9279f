-- ===== src/Lib.antt =====
-- one-true-pairing: a model of its one-time passwords, menu, secrets, clipboard and Wayland library.
--
-- The program shows a tray icon; a click on an entry of its menu puts a one-time password on the
-- Wayland clipboard. Its parts, and the files for them:
--
-- Common: numbers, lists, Boolean tests, the machine's byte order, 32-bit words and UTF-8.
--
-- WhaleLand (whale-land/src, socket-fd-ext/src): the Wayland library.
--   Packet models packet.rs: a packet under construction (`Packet` and its `push_` functions) and
--     `serialize`. Packet/Reader is `PacketReader`, with a cursor as its state.
--   Socket models socket-fd-ext/src/lib.rs. What the operating system answers is a list: bytes that
--     arrive, in chunks of any size, refusals and errors. Socket/Messages has the calls with the
--     control messages that carry file descriptors, of which Socket forgets all else.
--   Connection models connection.rs: `send_packet`, `recv_packet`, the counter of object IDs and the
--     map of event handlers. Connection/Environment is `new_from_env`, over the variables of the
--     environment, Connection/Cancelled a `recv_packet` that is dropped after the header.
--   Protocol models the code that wlproto generates (whale-land/src/protocol): a structure is its
--     opcode and the list of its fields, and `try_from_packet` and `try_into_packet` run the read and
--     push functions that Wlproto/Output chooses for each field. An event-handler trait and a request
--     proxy are the lists of their messages, `handle_event` is the dispatch over such a list, and
--     Protocol/Proxy the function of a proxy. Protocol/ExtDataControl and the files under
--     Protocol/Wayland hold all structures of the two protocols, Protocol/Interfaces lists them.
--   Fixed models fixed.rs: 24.8 fixed-point numbers and their conversions from and to integers.
--     Fixed/Float has those from and to f32 and f64, with the numbers of IEEE 754 and their rounding.
--   Error holds `Error` and the outcomes of a call: a value, an error, a panic, or a loop that turns
--     on. Exec is the state passing for `&mut self` and for the socket.
--
-- Wlproto (wlproto/src): the protocol compiler.
--   Document is the tree that the sxd_document crate documents for a parsed document.
--   Reading models main.rs, from that tree to the model of Model (model.rs); a failing `expect` is
--     none. Numerals is `parse_u32_base_prefix`, with the standard library's `from_str_radix`, and
--     Numerals/Spelled says which texts are numerals, without reference to them.
--   Generate models what output.rs numbers and nests for an interface, Output the choice of Rust
--     types and of functions for an argument. Tokens has the tokens of the generated code, as the
--     text of the quotes with the pieces that are put into it: Tokens/EventHandlers those of a
--     trait, Tokens/Interfaces those of proxies, structures, interfaces and protocols.
--
-- Totp (one-true-pairing/src/totp.rs): `urldecode`, `decode_base32`, `hotp`, `totp` and
-- `try_from_otpauth_url`. The HMAC of the `hmac` crate is a parameter. The clock is the number of
-- seconds since 1970, or none where it is set before.
--
-- Clipboard (one-true-pairing/src/main.rs): Dispatch models `wayland_dispatch`, Copy
-- `copy_dispatch` and `clear_dispatch`, MainLoop the loop of `main` over the events that
-- `tokio::select!` delivers. The state `Client` of State holds `WaylandData`, the counter of object
-- IDs, and what has gone to the outside: packets, bytes written to file descriptors, and closed file
-- descriptors. A call of `expect` that fails is a panic. How the file descriptor of a paste behaves,
-- which may be no pipe, full, or closed at its other end, is a parameter, `Pipe`.
--
-- Menu (one-true-pairing/src/notifier/mod.rs): Layout models the menu with its items, `get_layout`,
-- `get_group_properties` and `get_property`; Click models `event`. A click goes through the map of
-- names that Secrets delivers, reads a secret, and gives its text to Totp; the code goes to the
-- clipboard as a message. The session with the secrets, the HMAC and the clock are parameters.
--
-- Secrets (one-true-pairing/src/secrets): Dh models dh.rs, Crypto crypto.rs and Session mod.rs. The
-- service on the bus is a record of what it answers, and the packages' modular numbers, key derivation
-- and cipher are a record of functions, with their documented behaviour as laws. The random numbers
-- of the key generation are a list.
--
-- DbusUtils (one-true-pairing/src/dbus_utils.rs): the wait for a name, over the list of signals that
-- come.
--
-- Dbus (notifier/mod.rs, notifier/proxies.rs and secrets/proxies.rs in one-true-pairing/src): the
-- interfaces on the bus, those that are served and those that are called, as lists of members with
-- their Rust types, and the values of the properties of `TrayIcon`.
--
-- Program (one-true-pairing/src/main.rs, `main`): the parts together. Its state is the session with
-- the secrets, the menu, the client of Clipboard and the messages on their way from the menu to the
-- loop. The clock is read at each click. `start` is the start-up in the order of the source, each answer of the outside a parameter;
-- `step` runs a call of the bus, or a round of the loop, and `run` any sequence of them.
--
-- Tests: the definitions and the theorems at concrete inputs.
--
-- Bytes are natural numbers below 256, texts are their UTF-8 bytes (in Wlproto native strings), and
-- a machine integer is a number with its wrap-around written out. Loops over the socket run on
-- fuel; a loop without fuel has the outcome `hang`, and fuel of the number of bytes wanted is
-- enough while bytes arrive. The loop for object IDs needs two rounds at most.
--
-- Not modelled: the texts of errors and of the log, the command line, the XML parser, the spacing
-- of the generated tokens, what the macros of zbus, zvariant and libc make, and the shutdown of the
-- connections to the bus.
pub mod Common
pub mod Clipboard
pub mod Dbus
pub mod DbusUtils
pub mod Menu
pub mod Program
pub mod Secrets
pub mod Totp
pub mod Wlproto
pub mod WhaleLand
pub mod Tests
