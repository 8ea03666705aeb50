-- ===== src/Lib.antt =====
-- whatfrom answers a question about a project with a container base image that exists. This library
-- models the part that decides: what is derived from the names of collected tags, which tags of a
-- repository are found and offered, whether the answer of the language model may be shown, how many
-- answers are worked on at once, and how the evaluation scores them.
--
-- How the parts interact. A request to /recommend takes a slot of the limiter
-- (src/whatfrom/admission.py) or is refused; in a thread, recommend_for_question
-- (src/whatfrom/api.py) embeds the question, has the search conditions extracted, searches
-- candidates (src/whatfrom/search/retrieval.py), numbers their evidence
-- (src/whatfrom/recommend/evidence.py), asks the model for a recommendation, and lets it through
-- only as far as src/whatfrom/recommend/verify.py accepts it. The tags behind the candidates fulfil
-- conditions that src/whatfrom/search/filters.py gives up one after the other, and are chosen by
-- src/whatfrom/search/tagselect.py, which compares versions with src/whatfrom/core/versions.py. The
-- columns that the conditions read were filled by src/whatfrom/collect/derive.py from the names
-- that src/whatfrom/collect/tagparse.py parses. The documents that serve as evidence were cut up
-- for the search by src/whatfrom/index/chunk.py. What is handed on is declared in
-- src/whatfrom/core/contracts.py, the rows of the tables in src/whatfrom/core/models.py. The
-- evaluation runs the same function on the cases of src/whatfrom/eval/goldenset.py and scores it by
-- src/whatfrom/eval/scoring.py.
--
-- Files.
--   Prelude          Boolean tests, lists, texts, Python's dict, sort and integers; no program code.
--   Models           core/models.py: the rows of the tables.
--   Versions         core/versions.py: extends_version.
--   Admission        admission.py: the limiter, tickets and both sides of run_admitted, by one
--                    function per method (none of them waits). Admission.System composes them to
--                    steps of any number of requests, by the thread and by the event loop, in any
--                    order; the lock makes every method one step.
--   TagSelect        search/tagselect.py: Names (the exclusions), Lines (lines and their support),
--                    Order (folding by digest, groups, turns) and Select (select_tags and
--                    stale_pinned_lines). Functions have the names of the source without the
--                    leading underscore.
--   Filters          search/filters.py: tag_filters as tests of a row, and relaxations, one function
--                    per condition that is given up.
--   Chunks           index/chunk.py: chunk_text, its loop as spans, and split_sections (Sections).
--   Contracts        core/contracts.py: the types handed on, and split_image.
--   Retrieval        search/retrieval.py: search_candidates_with_plan and
--                    search_candidates_by_vector; Retrieval.Nearest is
--                    search_chunks_by_vector, Retrieval.Build _build_candidates.
--   Verify           recommend/verify.py: verify_recommendation, and in Verify.Citations
--                    verify_citation and check_citations.
--   Answer           api.py: recommend_for_question, one function per stretch between two early
--                    returns; Answer.Numbering is number_evidence.
--   Eval             eval/goldenset.py (Golden) and eval/scoring.py (Scoring, and Full for
--                    score_full).
--   Hub              collect/hub.py: HubClient._get.
--   Client           core/httpclient.py: post_json, with the errors of the transport of Hub.
--   Store            collect/store.py: upsert_tags, one function per statement of SQL.
--   Derive           collect/tagparse.py (Parse) and collect/derive.py: resolve_aliases (Resolve)
--                    and derive_repository (Repository).
-- The modules below these hold the lemmas and theorems; each Tests module holds runs and examples.
--
-- Representation. A text is the list of its code points; the classes of digits in the patterns of
-- tagselect.py and tagparse.py are read on ASCII, which registry tags are. Times are counts of
-- microseconds, ids and the limit are natural numbers, evidence numbers are integers. A set is the
-- list of its items. An assertion that fails, StopIteration, a broken constraint and the like are
-- `none`, or `failed` in Admission. The tables are lists of rows; the rows of image_variants stand
-- with their tag, a query is a test of the rows, and an update by the key a change of the rows that
-- have it. That the keys differ is a hypothesis of the theorems that need it. The state of the
-- loops of check_citations and number_evidence is passed on explicitly.
--
-- Fuel. interleave runs on `limit` rounds: each round over groups that are not all empty picks one
-- tag at least, so the loop of the source has ended by then. spans runs on the length of the text:
-- the start moves by one at least, so it is behind the text by then. The attempts of _get and
-- post_json are counted down. All else is structural recursion.
--
-- Parameters. In Answer, Stages holds the calls that leave the function: the embedder, the two
-- calls of the model, the searches and the database. A call over HTTP returns or fails with
-- RemoteCallError; other exceptions of the database or the searches are not modelled. Verify takes
-- the query of a tag by repository and tag (unique in the table image_tags) as a function. Filters
-- takes the type of a size limit, a float in the source, with the comparison of a size with it.
-- Retrieval takes the order of the distances of two embeddings to a vector. Hub and Client take the
-- HTTP client (its answer at each attempt), the clock, the dice and the arithmetic of floats. Store
-- takes the choice of a new key.
--
-- Not modelled. The notes of an answer are data with what they are made from, not sentences.
-- Metrics, timers and the FastAPI application only observe or start what is modelled. The parsing
-- of the registry's pages and the order of a collection, the prompts and the parsing of what a
-- model returns, the scores of citations, the report of the evaluation and the command line are not
-- modelled. Of a scored case the fields unsatisfied_candidates and trace, which the runner fills
-- in, are left out.
pub mod Prelude
pub mod Models
pub mod Versions
pub mod Admission
pub mod TagSelect
pub mod Filters
pub mod Chunks
pub mod Contracts
pub mod Retrieval
pub mod Verify
pub mod Answer
pub mod Eval
pub mod Hub
pub mod Client
pub mod Store
pub mod Derive
