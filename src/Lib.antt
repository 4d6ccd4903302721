-- ===== src/Lib.antt =====
-- The Devin maintenance orchestrator: a service that turns GitHub webhooks into paid Devin sessions
-- and follows them to their pull requests.
--
-- The parts, and how they interact. The receiver (app/routes/webhook.py) checks a delivery's
-- signature, records it in the webhook_events table and leaves a background task, which calls the
-- dispatcher (app/dispatcher.py). By labels and event that calls a handler (app/handlers.py), which
-- claims a row of the sessions table under a unique work key before it asks Devin for a session.
-- The poller (app/orchestrator.py) retries queued events through the same dispatcher, then reads
-- each active session from Devin and writes what changed. Stage and metrics are read from the
-- rows; the admin routes replay a delivery or empty both tables. What the issues say
-- comes from two scripts: scripts/scan_osv.py looks pinned packages up at OSV.dev, and
-- superset-fork-scripts/file_issues.py files an issue for each fixable CVE, whose body the handler
-- of CVE issues reads back.
--
-- Files:
--   Prelude        helpers on lists and their sorting, options, numbers, texts (code points), JSON and
--                  the schedules of threads
--   Settings       app/settings.py; Environment is the reading of the variables
--   Status         the statuses of app/db/sessions.py and map_status of app/devin/types.py
--   Prompts        app/prompts: the contexts, the issue parser and its check of fields; Fields is
--                  the pattern of the fields, Wording the templates, Schema the shape of a report
--   Findings       Scan is scripts/scan_osv.py, Filing superset-fork-scripts/file_issues.py
--   Sessions       app/db/sessions.py on a list of rows, with the UNIQUE index on work_key and the
--                  AUTOINCREMENT id of app/db/connection.py; Claims, Unique, Rows and Chains hold its
--                  lemmas
--   Outcomes       the result strings, one constructor for each
--   World          the payloads, the requests and their answers, and the state
--   Github         has_non_devin_commits of app/github_client.py, and in Fetch how GitHub's answers
--                  are read
--   Handlers       app/handlers.py: Security, CiFix and Escalation, with what is proved of each
--                  below them; Keys is about the work keys
--   Events         app/db/webhook_events.py
--   Dispatcher     app/dispatcher.py
--   Orchestrator   app/orchestrator.py: Drain is drain_queue, Poll the loop of poll_once
--   Webhook        app/routes/webhook.py and app/signature.py
--   Admin          app/routes/admin.py
--   Races          handle_security_issue and handle_ci_failure of app/handlers.py in several
--                  threads, one statement at a time: Moves and Walk are about one step, Alone and Fixing
--                  about one worker, Paid, Valid, Numbers, Overshoot, Attempts and Escalations
--                  about several
--   Clients        get_client of app/devin/factory.py and _http of app/github_client.py in threads
--   App            app/main.py with app/routes/metrics.py and app/serializers.py: the routes, their
--                  answers, and the running application
--   Simulation     scripts/simulate_issue.py
--   Runs           a step relation on states that every operation above follows, and what it keeps
--   Service        deliveries with their tasks, and ticks of the poller, in any order
--   Migration      app/db/connection.py: the backfill of work keys, and in Schema init_db with its
--                  migrations
--   Stage, Metrics app/stage.py and app/metrics.py
--   Devin          app/devin: Transport is http.py, Answers is types.py and the request's body,
--                  Client the other verbs of client.py
--   Health         app/routes/health.py, and whether app/main.py starts the poller
--   Dashboard      cells and filters of dashboard/streamlit_app.py, and in Reports its sessions
--                  table and the reports below it
--   Examples       concrete data and the theorems applied to it
--
-- How code corresponds. A function that writes the database or calls an API takes a State to its
-- result and the state that it leaves. The state has the two tables and the trace of requests sent,
-- the newest first. A long function is cut at its external calls and branches into functions that
-- take the answer as an argument: handle_ci_failure goes through with_refs, with_pr, with_tracked,
-- with_parent, with_commits, reserve_and_fix and claimed_fix, poll_once through poll_rows, poll_row,
-- apply_remote and sync. An exception that the code does not catch at once is a value of Except.
--
-- What stands outside is a parameter: Env answers each request by the whole trace and gives the
-- time by the whole state, so that any behaviour of Devin and GitHub is covered, and any clock
-- that is not read twice at different times between two changes of the state; Crypto has hmac's
-- digest and comparison and the JSON reader; Gh answers the gh command by all that was run before.
-- Pandas gives the stamps of the dashboard, and Python its json.loads and str. What a theorem
-- needs of these is a hypothesis of it.
--
-- Choices. Texts are lists of code points. Times are in microseconds since the epoch, except
-- Devin's updated_at and the durations of the settings, which are in seconds as there. ACUs are
-- natural numbers. A missing key and a JSON null are both none; a default that the code gives for
-- a missing key only is given for null too. A request on the trace is one call of a client's
-- function: the transport below it may send it several times, which Devin/Transport is about. A
-- prompt is its template's constructor with the values filled in, and Wording gives its text. The
-- pattern of the fields is a matcher that backtracks as Python's does, by recursion on the text.
-- An UPDATE's columns are the constructors of Assign, so that the allow-list is the type. A ratio
-- of the metrics is its numerator and denominator. Every loop is a recursion on a list, and the
-- transport's on the number of attempts left. Only the digits of a number run on fuel, one more
-- than the number, from which Prelude/Digits reads the number back.
--
-- Threads. In Runs and Service one handler runs after another. Races cuts both handlers
-- at each statement on the database and behind the answers of GitHub and Devin, and lets any number
-- of workers step in any order; an escalation is one step of its worker. Clients does the same with
-- the lock around the lazily built clients. Prelude/Threads has the schedule.
--
-- Not modelled: the columns that no migration touches, the HTTP requests themselves, start-up and
-- shut-down with the stop event and the closing of clients, what the dashboard draws, its ratios and
-- its chart, and the scripts' printing and their reading of files, .env and command lines; logging
-- everywhere.
pub mod Prelude
pub mod Clients
pub mod Settings
pub mod Status
pub mod Prompts
pub mod Sessions
pub mod Outcomes
pub mod World
pub mod Github
pub mod Handlers
pub mod Races
pub mod Simulation
pub mod Events
pub mod Dispatcher
pub mod Orchestrator
pub mod Webhook
pub mod Runs
pub mod Service
pub mod Stage
pub mod Metrics
pub mod Health
pub mod Dashboard
pub mod Devin
pub mod Admin
pub mod App
pub mod Examples
pub mod Migration
pub mod Findings
