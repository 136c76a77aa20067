-- ===== src/Lib.antt =====
-- Cold Snap: firmware that turns a Coldcard Mk4 into a Frostsnap signing device. This library models
-- the parts of it that decide something, and proves what they promise.
--
-- The parts and their files. A definition has the name of the function, type or constant that it
-- models, in snake_case for functions and constants.
-- - Memmap: hal/src/lib.rs, the addresses and sizes of `memmap`.
-- - Psram, with Psram.Fake for the host's memory: hal/src/psram.rs. The trait `Psram` is the record
--   `PsramOps`, whose calls take a state and give the next one; Psram.Laws says what a working memory
--   promises, and Psram.Fake shows that the host's memory keeps the promise.
-- - Firmware: firmware/src/lib.rs, `firmware_digest`. SHA-256 is an argument.
-- - Upgrade: firmware/src/upgrade.rs. The fields of `Stager` are a record with the memory's state
--   as `part`; `admit`, `feed`, `put` and `verify` are actions that answer with a value or a refusal
--   and always give the next state, so what was done before an error stays done. `feed` is cut at its
--   steps: `top_up` and `flush` for the carry, `spill` and `keep_tail` for the rest, `settle` for the
--   count, the acks and the verdict. `judge` is the verdict as a function of the bytes read back.
--   `feed_all` and `upload` put calls in the order in which a coordinator drives them.
-- - Comms: hal/src/comms.rs. `Link` holds the whole array and the count of held bytes. A call gives
--   the frames that it dispatched, how it ended, and the link. The decoder of bincode and the scan
--   of the magic pattern are arguments; Comms.Parse states the framing on plain lists of bytes, and
--   Comms.Receive the receiver of single bytes that `poll` is read against.
-- - Panic: hal/src/panic.rs. The registers are the bus of Mmio; the laws of the backup registers are
--   hypotheses in Panic.ResetLoop. `panic_handler` goes up to the reset.
-- - Keypad: hal/src/keypad.rs, from the columns' word to an event. The pins are a function that gives
--   the columns' word for a row; the store that leaves the rows low after a scan is not in it.
-- - Wordentry, with Wordentry.Letters for the buffers: firmware/src/wordentry.rs, and of hal/src/ui.rs
--   the page of a word. The lookup in the word list and the checksum of `frost_backup` are the record
--   `Bip39`; Wordentry.Laws says what the lookup promises. The arms of `word_key` are `type_letter`,
--   `turn_page`, `delete` and `commit`. A text is the list of its bytes.
-- - Quiz: firmware/src/quiz.rs over a generator of 32-bit words. `draw_loop` is given the tries that are
--   left, and ends in the search of `find_free`.
-- - Identity: hal/src/identity.rs, over any flash with the interface `NorFlash` and any source of bytes.
--   `load_or_create` is cut at its steps: `settle` for the record, `generate` for the loop that draws a
--   secret, and `program`, `write_body`, `write_commit` and `check_back` for the calls of the flash in
--   order. Identity.Creation says what a working flash promises.
-- - Store: firmware/src/store.rs. The parts of a record that only bincode reads are types that the model
--   takes, with the codec, the check of UTF-8, SHA-256 and the A/B slot as arguments; a text is the list
--   of its characters' bytes. `persist_staged` takes what is staged and the flash and gives both back.
--   Store.Fields and Store.Layout say where the bytes of a record stand, Store.Names what a cut name is;
--   Store.Retry saves again and again.
-- - Consent: firmware/src/main.rs, the routers from a key to the next screen, and the confirm digit of
--   hal/src/ui.rs. What follows from a pad that is not there is in `ask`.
-- - Reveal: the reveal of a backup. The grant, `show_backup` and `backup_recorded` of `Session` are of
--   firmware/src/lib.rs, the pages of hal/src/ui.rs, and `turn`, `take_step` and `show_backup_page` the
--   branch of the event loop in firmware/src/main.rs. `Loop` has the loop's variables, and beside them
--   `shown`, the pages shown since the last grant, which the code does not keep. The decryption of a
--   share and the push to the outbox are arguments; the panel is there, and whether it draws is not read.
-- - Messages, Protocol: firmware/src/lib.rs, what `Session` is sent and answers, and its handlers.
--   Its other parts are the record `Parts`: the signer of `frostsnap_core` with the secrets and the
--   generator in one state, the stores, the outbox, the entry, the quiz, and whether a screen can be
--   drawn. `recv_core`, `confirm_at` and `run` are cut at their matches, Protocol.Keys has the keys of
--   an entry and of a quiz, and Protocol.Calls puts the methods in any order. Protocol.Stored puts the
--   model of the store in the place of that part, and Protocol.Open is `open`, at the start of the device.
-- - Namestore: firmware/src/lib.rs, `NameStore`, with SHA-256, the check of UTF-8 and the A/B slot as
--   arguments, as in Store. `save` is cut at the record that it builds and at the match on the outcome.
-- - Outbox: firmware/src/lib.rs, the frames that wait to go out, over bincode's encoder. The loop that
--   looks for a boundary in a text is `back_up`; Outbox.Cut says where a text is cut.
-- - Rng: hal/src/rng.rs. The reads of the three sources, SHA-256 and ChaCha20 are arguments; the checks of
--   a draw, the mix, `boot` and `try_reseed` are the code's.
-- - Callgate: hal/src/callgate.rs, the checks before a call of the bootloader's gate and of its answer. A
--   pointer is its address.
-- - Flash: hal/src/flash.rs. The array and the registers are one bus; a barrier is the order of the
--   stores, and a byte of the array is read by a function of its own. Flash.Traced notes the addresses
--   of the stores on a bus around the given one.
-- - Prelude, Prelude.Bits, Prelude.Bytes and Prelude.Exec hold what the parts share: Boolean tests,
--   lists, results, masks of words, little-endian bytes, and actions that may fail. The children
--   of a part hold its proofs, each named for what it proves. Tests holds concrete inputs.
--
-- Upgrade calls Psram through the record, Psram's length gate and Firmware's digest. Panic and Flash
-- share Mmio. Protocol grants what Reveal shows and stores by what Store promises. Reveal asks
-- through Consent, which reads what Keypad makes of the pad. Store tells an erased record by Rng's
-- test of equal bytes. Identity draws on what Rng makes and programs what Flash drives, through its
-- arguments. Protocol.Stored and Protocol.Reload compose Protocol with Store. The other parts stand alone.
--
-- Integers are natural numbers. A sum or a difference of 32-bit words is reduced modulo 2^32 where
-- the code wraps, and checked or saturating arithmetic is written out. Fuel: `drain` is given the
-- count of held bytes, `poll` one pass more than the bytes, as in the source; the loop of the self-
-- test is given the count of its chunks; `sr_wait_done` its own spin limit; `verify_loop` the count
-- of the bytes, and takes eight at a pass; `generate` the source's eight attempts. In `feed` a chunk
-- of 2^32 bytes or more is refused, as `try_from` does.
--
-- Not modelled: the memory-mapped PSRAM of the device, the wire loop `run` of the upgrade, the body
-- decoders of the wire, the set-up of pins and clocks, the start-up and the other branches of the
-- event loop, the announcement of `Session`, the layout of the screens, the
-- register accesses of the random sources, the calls of the gate, USB and the display; the vendored
-- Frostsnap crates, which are another project's; the examples, tools and tests of the repository.
pub mod Prelude
pub mod Memmap
pub mod Mmio
pub mod Flash
pub mod Psram
pub mod Firmware
pub mod Upgrade
pub mod Comms
pub mod Panic
pub mod Keypad
pub mod Tests
pub mod Wordentry
pub mod Quiz
pub mod Identity
pub mod Rng
pub mod Callgate
pub mod Consent
pub mod Reveal
pub mod Messages
pub mod Protocol
pub mod Namestore
pub mod Outbox
pub mod Store
