-- ===== src/Lib.antt =====
-- The Python client of Zebra, a secure messenger (client/src): it seals and opens end-to-end
-- encrypted messages, keeps the private keys, the pinned keys of peers, the sequence counters and a
-- cache of plaintexts in encrypted files, and talks to a server over HTTP.
--
-- The parts and their files:
-- - Base: lists, dicts, texts and integers as Python has them, over the native numbers. Codec:
--   base64, UTF-8, decimal and hexadecimal notation. Json: the values of JSON.
-- - Env: the packages that the client calls (cryptography, argon2-cffi, pycryptodome, requests),
--   the system's random numbers and the server, as a record of functions, with the laws that
--   theorems ask of them (IsLawful). Env/Toy is an environment that has these laws; the tests run
--   in it.
-- - Py: the client's state (files, random draws, requests sent, keystore object, session) and
--   methods as functions from a state to a result and a state. An exception keeps what was written
--   before.
-- - Errors: client/src/errors.py. Session: client/src/session.py. Config: client/src/config.py, its
--   keystore_path_for, and in Settings what it reads from the environment.
-- - Crypto: client/src/crypto/kdf.py, digest.py, aead.py, signing.py, messaging.py. Wire holds the
--   reads of the fields that came over the wire; Messaging has seal and open_message.
-- - Keystore: client/src/crypto/keystore.py. Files has the persistence (a write is a list of system
--   calls), Atomic, Loading, Unlocking, Pins, Counters, Cache and Password the theorems. Quiet has
--   the operations of the keystore that send no request, Failing a write on a disk that fails and
--   change_password on it. Refinement compares the pins and counters of the file with three
--   functions.
-- - Api: client/src/api. Client has BaseClient, Endpoints the wrappers of the endpoints.
-- - Services: client/src/services. KeyService, MessageService (with ChainService) and AuthService.
--   Growth has rules for actions that lose no pin and touch no counter, Publishing and Sending what
--   the requests of publish_own_keys, login, register and change_password carry, Refusing what the
--   server's refusal leaves. Actions has any sequence of calls of the message and key services, as
--   a list of actions, and what such a sequence leaves.
-- - Ui: client/src/ui. Conversations has _decrypt_inbox and _decrypt_sent of main_frame.py, which
--   the worker thread runs at every poll, Loading that worker, and Populate the method _populate,
--   which makes the conversations of its messages; Sort is list.sort. Letters describes the new
--   messages of a sender before and after _decrypt_inbox. Account has the forms (register_frame.py,
--   login_frame.py, the change of the password and _logout of main_frame.py), Window what the
--   window keeps and the handlers of inbox_frame.py, Sending the handler of compose_frame.py,
--   Messages the actions of message_frame.py on a message, KeyWarning the dialog of widgets.py, and
--   Archive and Downloading rekey_archive and _download_msg of message_frame.py. Running has any
--   sequence of the window's handlers, as a step relation, and Polling the loop of _load and
--   _schedule_poll with the calls that these and the workers of actions schedule, and _logout.
--   Drawing has what the rows, bubbles and details show, as records, and Times the notation of
--   times of utils.py. Demo is demo_data.py, and Demo/Acting the handlers' branches in development
--   mode.
-- - ArchiveDemo: demo_archive.py.
-- - Tests: the theorems at concrete inputs.
--
-- How they interact: the interface calls the services; these call the API, the keystore and the
-- crypto functions, and share one session and one keystore, both in the state. A method of a class
-- is a function of the same name without its leading underscore; `self` is the state.
--
-- All recursion is on the structure of lists, so nothing needs fuel. Python's integers are the ℤ of
-- Base/Int, without a bound; random draws are functions of how many were drawn before.
--
-- A handler of the interface returns what it leaves in the window and which notice it shows. What
-- it hands to a worker thread, and what the worker schedules, is run in its place, one after the
-- other. In Polling a worker of _load is one step, and steps of workers, timers, scheduled calls
-- and handlers come in any order.
--
-- Not modelled: the layout and colours of the widgets, the progress bar of the registration, the
-- interleaving of the interface's threads but in Polling, directories and file modes, writes that
-- fail (but in Keystore/Failing, which the change of the password uses), what a handler of the
-- window leaves when it raises, timeouts, floating-point numbers, texts with lone surrogates, the
-- log, the backend, the C++ message store, the contract. Texts of exceptions are kept where the
-- client makes them a message; other exceptions are their class alone. A value of the server that
-- has not the type the code expects is an exception where the code would first fail on it, or, for
-- ids, names, times and tokens that are no text, where they are read.
pub mod Api
pub mod ArchiveDemo
pub mod Base
pub mod Codec
pub mod Config
pub mod Crypto
pub mod Env
pub mod Errors
pub mod Json
pub mod Keystore
pub mod Py
pub mod Services
pub mod Session
pub mod Tests
pub mod Ui
