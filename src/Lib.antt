-- ===== src/Lib.antt =====
-- Verification of the core services of VaultBridge, a server that gives agents access to Markdown
-- vaults: scheduling of semantic synchronization, rate limiting, request budgets, indexing,
-- duplicate candidates, the admission of operations, the matching of queries, frontmatter, sessions,
-- the policies of knowledge spaces, and links between notes.
--
-- Parts, and the code that they model:
--   RateLimiter (app/services/rate_limiter.py): `FixedWindowRateLimiter` as a record whose table is
--     the ordered list of the items of `_clients`. `check` is one call under the lock, and `run` is a
--     sequence of calls. Times are ticks of the clock, `tick` of them to a second, so that the
--     rounding of the retry time is visible. RateLimiter/Bounds has the invariant of the table, and
--     RateLimiter/Windows what the decisions are.
--   Scheduler (app/services/semantic_scheduler.py, with SyncStep, SyncStepState and SyncContinuation
--     of app/services/semantic_sync.py): Scheduler/State has `_Owner` and the shared fields,
--     Scheduler/Queue the sections that admit, move and drop path reservations, Scheduler/Monitor the
--     coverage protocol of the watcher, and Scheduler/Turn the selection and the worker's `_turn`,
--     cut where it leaves the condition. Scheduler/Steps puts the sections together: a step of the
--     transition system is one section under the condition, and clients, watcher and worker take
--     steps in any order. What the semantic service answers, and whether it raises, is an argument of
--     the step. Scheduler/Closing has `status`, `_close_owners` and `shutdown`. The other modules are
--     proofs: the invariant (Invariant, Safety, Reachable), the debt
--     of work (Debt), the rotation (Rotation) and closing (Shutdown), over lemmas on one owner
--     (Count, Keeps, Drops, Quiets, Sections), on the stages of a turn (Stages, Moves) and on the
--     table of owners (Table).
--   Budget (app/services/scoped_budget.py): `ScopedBudget`, `CleanupCredit` and
--     `RelationshipBudgetView`. Budget/Charges and Budget/Credits have the invariant of counters,
--     parts and credits, and Budget/Parsing the parse credit of sources.
--   Indexer (app/services/indexer.py): `BackgroundSemanticIndexer` with the sections under its lock
--     and the stages of `_run` as events; Indexer/Wake and Indexer/Work are proofs over traces.
--   Duplicates (app/services/duplicate_candidates.py): `find_bounded_batch`, `find_candidates` and
--     `_merge_candidates`; Duplicates/Batch compares the batch with a description by filters, and
--     Duplicates/Merge says which paths a merge has.
--   Admission (app/services/space_admission.py): `ScopedOperationAdmission` with the sections under its
--     condition. Admission/Single and Admission/Waiters are proofs over every order of the sections.
--   Query (app/services/knowledge_query.py): metadata and relationship predicates of a query against
--     one note; Query/Metadata describes what matches. Query/Requests is the validation of a request,
--     with proofs on its tags in Query/Requests/Tags.
--   Frontmatter (app/services/frontmatter.py): texts are lists of code points. Frontmatter/Envelope has
--     `_extract_envelope`, Frontmatter/Scalars the plain scalars, Frontmatter/Build the values from the
--     events of the YAML parser, Frontmatter/Portable the aliases and tags, and Frontmatter/Serialize
--     `serialize_frontmatter`. The events of the YAML parser, `float`, `str.strip`, `json.dumps`, `hex`
--     and `bit_length` are arguments. The modules below them are proofs: Size, Lines, Next, Content,
--     Closing, Found and Wrapped on the envelope, Decimal on digits, Ensures, Fits, Scalar and Limits on the builder, Usable on the portable
--     fields, and Reread on the serializer together with the parser.
--   Session (app/core/ui_session.py): `create_ui_session_token` and `validate_ui_session_token`, with
--     HMAC and base64 as arguments. Session/Splitting and Session/Decimal have the lemmas on dots and
--     digits, and Session/Tokens what the validation accepts.
--   Spaces (app/services/knowledge_spaces.py): policies, the registry and `SpacePolicyResolver`;
--     Spaces/Config and Spaces/Document model `parse_knowledge_spaces` on the values of `json.loads`.
--     Spaces/Reading and Spaces/Writing have proofs on the authorization, and Spaces/Valid on the
--     configuration.
--   Wikilinks (app/services/wikilinks.py): the parser of `WikilinkResolver`, the snapshot of live notes
--     and the resolution of a link; Wikilinks/Lines and Wikilinks/Printed have proofs on the parser,
--     Wikilinks/Names on the resolution.
--   MarkdownLinks (app/services/markdown_links.py): the parser of `MarkdownLinkResolver`;
--     MarkdownLinks/Places has proofs on its cursor and on the places of links.
--   Base: lists, sets and dictionaries as lists, and Boolean tests, shared by all parts.
--
-- Identity tests with `is` compare numbers that stand for the objects. Space ids are numbers, but texts
-- in Spaces. Path normalization and resolution are the parameters of the record `Paths`. A count that
-- Python would let fall below zero is compared as a sum, so that no subtraction is cut off.
--
-- Fuel: `probe_loop` of Budget has the count and one more, and every round takes at least one from the
-- count. `decimal_from` of Session has the number and one more, and each round divides it by ten.
-- `parse_from` of Wikilinks has the length of the line, of which each round takes four characters.
-- `parse_from` of MarkdownLinks has the length of the line and one more, each round moves the cursor
-- ahead, and it answers `none` when the fuel runs out.
-- `decimal_chunks` of Frontmatter has the number of digits, of which each chunk takes at least one;
-- `find_closer` has the length of the text and one more, and each round but the last moves ahead;
-- `build_mapping` has twice the number of events and one more, and each call takes an event or comes
-- right after one that did.
--
-- Not modelled: file-system checks (`_validate_owner`, `_validate_named_bindings`), and the services
-- that move data between the file system, SQLite, the embedding model and the transports.
pub mod Base
pub mod RateLimiter
pub mod Scheduler
pub mod Budget
pub mod Admission
pub mod Duplicates
pub mod Frontmatter
pub mod Indexer
pub mod MarkdownLinks
pub mod Query
pub mod Session
pub mod Spaces
pub mod Wikilinks
