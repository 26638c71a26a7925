-- ===== src/Lib.antt =====
-- opencode-better-compact keeps what an agent session needs when its history is compacted: it builds
-- a bounded recovery ledger, compiles canonical events into candidates and patches, and follows each
-- attempt until the summary is validated.
--
-- The parts and the files that model them:
-- * src/ledger.ts, sizes and cuts of strings: Utf8. A JavaScript string is the list of its UTF-16 code
--   units (`Text`).
-- * src/ledger.ts, the recovery ledger: Ledger has its data and its canonical text, Ledger.Fit what
--   trims it to a bound, with the binary search of Ledger.Search, whose fuel is the length of its
--   interval. What `buildRecoveryLedger` does before that is in Ledger.Wording, which cleans and cuts
--   texts, Ledger.Parts, with the helpers on a message and its parts, Ledger.Collect, with the loop
--   over the parts, Ledger.Messages, with the loop over the messages, and Ledger.Build, with the todos
--   and the merging with an earlier ledger. A set that the code keeps beside a list of the same values
--   is that list.
-- * src/state.ts, the two stores of attempts: State. `State.Attempts` is `AttemptStore`,
--   `State.VccAttempt` the validation of the metadata of a VCC attempt and `State.VccAttempts` the
--   `VccAttemptStore`. A `Map` is the list of its entries in the order of insertion (Base.JsMap), and a
--   method that changes the store returns the new one.
-- * src/vcc.ts, its events, manifests, episodes and candidates: Vcc. `Vcc.Reason` has the reasons for
--   an incomplete source, `Vcc.Order` the order of strings by code points and the sorted sets of
--   identities, `Vcc.Serialize` canonical JSON, `Vcc.Event` the canonical events with the tests on
--   their identities, `Vcc.Source` the manifest of a source, `Vcc.Episode` the causal episodes,
--   `Vcc.Select` the selection of episodes that fit, and `Vcc.Candidate` the compilation, which uses
--   all of these. The digest, the redaction and the printing of doubles that are no small integers are
--   the fields of `Primitives`.
-- * src/vcc.ts, the reader of JSON and the patches: Vcc.Json, with its tokens in Vcc.Json.Tokens, and
--   Vcc.Patch, with the tests of a patch's parts in Vcc.Patch.Checks, its validation in
--   Vcc.Patch.Validate and its application in Vcc.Patch.Apply.
-- * src/vcc-hybrid.ts, a patch asked of a model: Hybrid has the request and Hybrid.Exchange what is
--   done with the answer. The function that asks is an argument, and an `Answer` says whether the
--   signal is aborted by the time that it comes.
-- * src/vcc-archive.ts, handles of archived sources: Archive has the handles and their creation,
--   Archive.Verify the verification.
-- * src/vcc-wire.ts, the blocks of a summary: Wire has what renders them and Wire.Pattern the
--   expressions that read them.
-- * src/options.ts, the options of the plugin: Options has what resolves them and Options.Parse what
--   reads them. An exception is the `because` of its message (Base.Verdict).
-- * src/pi-vcc-cut.ts, what of a Pi session is summarised and what is kept: PiCut.
--
-- A value of unknown type is a `Value` of Base.Value; an exception is the `throw` of a `Result`. The
-- redaction of secrets (regular expressions), the digest and the reading of dates are arguments of the
-- definitions that use them. `Array.sort` is the stable insertion sort of Base.Sort, and `map` with a
-- function that may throw is `traverse` of Base.Results. Loops are structural over the list that they
-- consume, or on fuel: 21 digits for a number below 10 ^ 21, one more than twice the length of a text
-- for the reader of JSON, the length of the interval for a binary search; and the
-- selection of episodes has one round for each of them, since a round that goes on takes one.
--
-- Not modelled: the clients of databases, of object stores and of the hosts, the command line tools,
-- and the evaluation harness, which are input and output; and the other files under src/.
pub mod Base
pub mod Utf8
pub mod Ledger
pub mod Vcc
pub mod State
pub mod PiCut
pub mod Hybrid
pub mod Archive
pub mod Wire
pub mod Options
