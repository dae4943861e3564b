-- ===== src/Lib.antt =====
-- The bopomofo input method for Fcitx 5: a model of the core of its engine and what is proved of it.
--
-- The engine turns keys into bopomofo syllables (engine/src/bopomofo), keeps them as the segments of
-- a composition with a caret (engine/src/buffer), asks an inference service for candidates and decides
-- which responses are still fresh (engine/src/input/prediction_state.hpp, engine/src/host), and shows
-- candidates page by page (engine/src/input). Samples of the focused widget give the service its
-- context (engine/src/context, engine/src/text), messages go to the service and back
-- (engine/src/protocol, ime-unix-service/src/pipe), a menu offers symbols (engine/src/symbol), and the user's
-- own phrases are kept in a file (engine/src/phrase_override).
--
-- Which file models what:
--   Prelude                shared names, Boolean tests, lists over the native numbers, positions in lists,
--                          and the signed steps of the views.
--   Bopomofo.Symbols       the symbol classes of engine/src/bopomofo/syllable.cpp; Syllable is the class
--                          `Syllable`, one function per method, a slot being 0 when it is empty.
--   Bopomofo.Standard, Hsu, Keymap
--                          engine/src/bopomofo/keymap.cpp: the tables, `apply_hsu_key` and
--                          `apply_bopomofo_key`; a syllable that is changed in place is a result.
--   Composition            engine/src/buffer/composition_buffer.cpp: Buffer is the state of
--                          `CompositionBuffer`, Segment its segments; Typing, Editing, Candidates and Views
--                          hold the methods under their names. A method that returns a flag returns the
--                          buffer and the flag. Session runs any sequence of the methods.
--   Composition.Validity, Ahead, RollBack, Overrides, Erasing, Session.Revision, Session.Staleness
--                          what is proved of them, by subject.
--   Input.State, View, Keypad
--                          engine/src/input/input_state.hpp, candidate_view.hpp and keypad.cpp.
--   Input.Prediction       `PredictionState` of engine/src/input/prediction_state.hpp, and in `send` the part of
--                          `Engine::send_prediction`, engine/src/host/engine.cpp, that changes that state.
--   Text.Utf8, Utf16       engine/src/text/utf.cpp without `utf8_prefix_tail`.
--   Text.Sampler           `CaretPrefixSampler`, engine/src/context/caret_prefix_sampler.hpp.
--   Text.Adoption          `strip_preedit_suffix`, engine/src/context/sample_adoption.hpp.
--   Symbol.Categories, Menu
--                          engine/src/symbol/symbol_menu.cpp.
--   Phrases.Lines, Store, Reading
--                          engine/src/phrase_override/phrase_override_store.cpp: keys and lines, the store as the
--                          list of its entries in the order of the keys, and loading. `add`, `replace` and
--                          `load` take what the file system answers.
--   Phrases.Promise        what a key finds after any operations, without the table.
--   Phrases.Store.Saving, Dashes, Keys, Refinement
--                          what is proved of them.
--   Wire.Messages          the messages of engine/src/protocol/protocol.hpp, which
--                          ime-unix-service/src/pipe/protocol.hpp declares alike.
--   Wire.Reading           readers, which are the class `Reader` with what is left of the frame as its state,
--                          and writers that may refuse.
--   Wire.Characters, Fields, Entries, Encode, Decode
--                          engine/src/protocol/protocol.cpp, field by field and message by message.
--   Wire.RoundTrip, Results, Decoded
--                          what is read back, and what the decoders promise.
--   Pipe.Characters, Fields, Entries, Encode, Decode
--                          ime-unix-service/src/pipe/protocol.cpp in the same order: its shifts, its own tests.
--   Interop                that the two codecs agree, function by function.
--   Sessions.State, Table, Predict, Close
--                          ime-unix-service/src/session/session_manager.cpp: one function for each stretch that
--                          holds a lock. A session is found through its place in `store`, which stands for the
--                          shared pointer; `sessions` is the table.
--   Sessions.World         calls that run at the same time, as a list of stages, and schedules of stretches.
--   Sessions.Exclusion, Requests, Responses, Eviction, Capacity, Bounded, Opening
--                          what is proved of them.
--   Tests                  concrete runs of the models and of the theorems.
--
-- Conventions. Characters, code units and bytes are numbers. The counters of 64 bits wrap at 2 ^ 64; the
-- theorems that need them not to wrap say so. Masks and shifts are remainders, quotients and products. An
-- exception of the text functions and of the codecs is `none`. Positions, pages and rows are natural numbers, and where the
-- code subtracts, the model says what happens at 0.
--
-- Loops are structural recursion, but for `visit_utf8`, `split_loop`, the loops of `valid_utf8` and of the
-- eviction of sessions, which run on fuel: the length of the input or of the table. Each round takes one byte at least, so more fuel gives the same result.
--
-- Not modelled: the input processor, the mixed input decoder, and of the inference service the
-- commit store and the model, which build on these parts or are a library; the sockets, the accessibility service, the configuration and the
-- logs, which are calls of the system. Nor is it modelled that memory runs out: an exception while `predict` of the
-- session manager builds the message of an error, after `finish`, would run `finish` again.
pub mod Bopomofo
pub mod Composition
pub mod Input
pub mod Interop
pub mod Phrases
pub mod Pipe
pub mod Prelude
pub mod Sessions
pub mod Symbol
pub mod Tests
pub mod Text
pub mod Wire
