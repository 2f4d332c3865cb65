-- ===== src/Lib.antt =====
-- Verification of the FastAPI service of the reports hub (app/).
--
-- The service lets Telegram users log in, keeps their keywords and favorites, serves lists of
-- brokerage reports from a database, and links reports to FnGuide summaries. A request passes the
-- middleware (request id, security headers), a dependency that reads the user from the token, and a
-- handler, which raises exceptions that become JSON responses.
--
-- The files and the code that they model:
--   Prelude, Text          shared lists, tests and Python's methods on texts
--   Exceptions             app/exceptions.py: classes, constructors, code that may raise
--   ErrorHandlers          app/error_handlers.py and the request id of app/logging_config.py
--   Settings               app/settings.py: fields and derived properties
--   Security               app/security.py: access and share tokens
--   Security.Telegram      verify_telegram_data
--   Security.SecurityHeaders  SecurityHeadersMiddleware
--   Auth                   auth_telegram of app/main.py, get_user_from_token of
--                          app/dependencies.py, require_admin of app/routers/admin.py
--   Keywords               the keyword endpoints of app/main.py
--   Favorites              app/routers/favorites.py: adding, removing, the items of the listing, and
--                          runs of requests on a set of pairs
--   ReportQuery            app/services/report_query.py: SQL texts and parameters
--   Endpoints              app/services/raw_query.py and the list endpoints of
--                          app/routers/external_api.py
--   Archive                the archive bundle, the archive download and the share links of
--                          app/routers/external_api.py, bundle_file_name of
--                          app/services/archive_files.py; Archive.Remote its archive_remote_path
--   Cache                  the connection and the decorator of app/cache.py
--   Notifications          the read marks of app/routers/reports.py
--   Reports                its report list, summary setting, notification list and send history
--   FnGuide                app/services/fnguide_matcher.py: texts, dates, search, batch
--   Binds                  SQL texts with named parameters, for Screening and Summaries
--   Screening              app/routers/fcf_screening.py
--   Summaries              app/routers/fnguide_reports.py
--   ReportItems            app/services/report_response.py: from a row to an item
--   Internal               the endpoints for the scraper in app/routers/external_api.py, and
--                          invalidate_prefix of app/cache.py
--   Admin                  the log view of app/routers/admin.py, app/services/admin_log_utils.py;
--                          Admin.Listing the list of log files,
--                          Admin.Firms firm health, Admin.Summarize the summary endpoint,
--                          Admin.Statistics the report statistics and the matching endpoints
--   SummaryWorker          app/services/summary_worker.py
--   Startup                the schema changes of app/main.py; Startup.Versions
--                          scripts/apply_migrations.py
--
-- A handler is a function from its arguments and the table to its answer and the table after the
-- commit. Exceptions are values of Result. Functions keep the names of the code; parts of a long
-- function have names of their own, and the manifest gives their lines. Lists of clauses and
-- parameters that the code appends to are put together from one part for each test.
--
-- Parameters, with what the code relies on: PyJWT and compare_digest (Security.Jwt), the HMAC of
-- the login data (Security.Telegram.Crypto), the database behind a statement (Endpoints.Database),
-- float arithmetic with its order and json.loads (FnGuide.Matcher.Python), whether a download and a
-- write to the ZIP file succeed (Archive.Archive), Redis and the JSON bytes (Cache.Redis), what a
-- timestamp column takes (an argument of update_keyword), create_all (an argument of lifespan), what a
-- migration script does (an argument of apply_pending_migrations), the rows behind named parameters
-- (Screening.Database, Summaries.Database), what SCAN answers (an argument of invalidate_prefix), the
-- file system (Admin.FileSystem, and what is in a folder, an argument of list_log_files), the engines
-- that write summaries (arguments of trigger_summarize; the summary worker writes the tables
-- itself), json.dumps and the validation of a response (arguments of the handlers of Reports), running a
-- command (an argument of run_worker), and the context variable outside of the request-id middleware (an
-- argument of dispatch_error).
-- str.lower, json.loads, float and fromisoformat are arguments where a module needs the whole of them.
--
-- Choices: identifiers, pages and times are natural numbers, and a Telegram timestamp is an integer.
-- Times are whole seconds in tokens and microseconds in the login check. int() reads ASCII digits,
-- and lower() rewrites ASCII letters. first() takes the first matching row in the order of the
-- table. Loops are structural recursion; only str() and the search for a free file name run on fuel: the
-- number and one, of which each turn takes a digit, and the number of names in use, of which each
-- turn passes one.
--
-- Not modelled: engine and session setup, the figures of the operating system, the cache warming,
-- and calls to other services.
pub mod Prelude
pub mod Text
pub mod Exceptions
pub mod ErrorHandlers
pub mod Settings
pub mod Security
pub mod Auth
pub mod ReportQuery
pub mod Endpoints
pub mod Keywords
pub mod Favorites
pub mod FnGuide
pub mod Archive
pub mod Cache
pub mod Notifications
pub mod Startup
pub mod Binds
pub mod Screening
pub mod Summaries
pub mod ReportItems
pub mod Internal
pub mod Admin
pub mod Reports
pub mod SummaryWorker
