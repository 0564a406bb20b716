-- ===== src/Lib.antt =====
-- The pipeline collects book records from several catalogues, normalises them, gives each an
-- identity, merges the observations of one book and loads them into a database. This development
-- models its pure core, the code that decides which source is asked, the loader, and the consumer
-- that feeds it.
--
-- src/pipeline/transform: isbn.py is Isbn, identity.py is Identity (canonical JSON in
-- Identity/Document), normalise.py is Normalise with a child per kind of value, series.py is
-- Series, canonicalise.py is Canonicalise and Canonicalise/Merge. models/domain.py is Domain: a
-- record per model, and its validators as Boolean tests. extract/base.py is Retry
-- (`request_with_retries`) and Pacing (`TokenBucket`); extract/resolver.py is Resolver, with the
-- loop of ingest.py's `_resolve_batch` over the candidates, one at a time; source_health.py is
-- SourceHealth, over a list for the table of runs, whose rows Runs shares. load/postgres.py is
-- Loader: the tables in Loader/Tables, authors and subjects in Loader/People, series in
-- Loader/Serials, one record in Loader/Books, batches and deadlocks in Loader/Batches (an attempt
-- runs its records on a working copy, which a deadlock rolls back), the reports of attempts in
-- Loader/Reports. observability/runs.py is Runs and observability/markers.py is Runs/Markers.
-- models/events.py and services/wiring.py are Consumers, and services/load_consumer.py is
-- Consumers/Load, services/transform_consumer.py is Consumers/Transform. Functions keep their
-- names; a leading underscore is dropped. Base holds lists, texts, sorting and results for all of
-- them.
--
-- `canonicalise` calls the normal forms, the ISBN selection and the identity key, and hands the
-- fields to the validators of Domain; the merge works on its clean records. The resolver asks the
-- sources for raw records under its budgets; each of its lookups stands for an adapter that asks
-- with retries. The load consumer canonicalises the payload of each event, collects the clean
-- records and hands them to the loader, which replays the stored payloads of a book and writes
-- their merge; the boundary markers among the events close the run in the ledger of Runs.
--
-- A text is a list of Unicode code points, a set is a sorted list without repetitions, an exception
-- is an error value, a table is a list of rows, and a transaction is a function from the catalogue
-- to a new one or an error, which rolls back. What the repository does not hold is a parameter: the
-- tables of Unicode (Unicode), pycountry, SHA-256, html.unescape and decimal parsing (Platform),
-- the replies of a source, jitter and the clock (Retry, Pacing, Resolver), the order of texts in
-- the database (Database), the conflicts between transactions and the delivery of parked events
-- (World). The mapping of stored payloads to raw records, which the adapters of the sources define,
-- is a parameter too. Times are natural numbers of milliseconds, seconds or clock ticks. All
-- recursion is structural: the retry loops run on the number of attempts left, and the loop over
-- batches on the number of records, of which each batch takes one at least, so no result rests on
-- fuel.
--
-- Not modelled: Kafka and a clean topic that fails, Airflow, the adapters of each source,
-- discovery, the texts of pydantic's errors, the overlap of candidates under asyncio, and the
-- interleaving of two writers inside a transaction: a conflict ends an attempt after a number of
-- its records, and the attempts of two writers see one another's result in full. The resolver's run
-- is sequential, and its `calls` only records the fetches that it makes.
pub mod Base
pub mod Unicode
pub mod Canonicalise
pub mod Consumers
pub mod Domain
pub mod Identity
pub mod Isbn
pub mod Loader
pub mod Normalise
pub mod Pacing
pub mod Platform
pub mod Resolver
pub mod Retry
pub mod Runs
pub mod Series
pub mod SourceHealth
