-- ===== src/Lib.antt =====
-- NetOps platform: the address management, the users with their sessions, the process designer, the
-- connections and the configuration backups of netops-backend.
--
-- The program is a web service over a database. Its endpoints (netops-backend/routes and
-- netops-backend/app/api) read and write tables through services. Here a table is a list of rows in
-- the order in which a query without an order returns them, the tables of a part are a record `Db`,
-- an operation is a function from the tables to a result and the tables, and an exception is a
-- value. A commit is the new record; what an exception leaves uncommitted is not in it. The time,
-- random texts and the caller are arguments.
--
-- Prelude: tests, lists, texts and results that the parts share.
--
-- Ipam: netops-backend/services/ipam_validators.py, netops-backend/services/ipam_csv_import.py and,
-- of netops-backend/routes/ipam_router.py, `_address_range_to_cidrs` and
-- `_aggregate_available_ranges`. Network is Python's `ipaddress` on numbers: a network is a version,
-- an address and a length. Cidrs is the cover of a range by networks: its loop has as fuel the
-- number of addresses left, and the doubling of a block the number of addresses remaining, which are
-- enough since each round takes an address or doubles a size. Ranges is the gaps between the
-- prefixes of an aggregate. Validators are the checks. CsvRows is the header check and the cleaning
-- of rows, CsvImport what the imports share, AggregateImport and PrefixImport are the two imports,
-- row by row, in the order of the source. The reading and writing of networks, dates and numbers as
-- texts is the record `NetText`, whose laws are that a network that is printed is read back, that
-- what is read is a network, and that a print has no space around it. `csv.DictReader` is a function
-- from the text to its header and rows. Sample is a `NetText` for the examples.
--
-- AggregateRoutes and PrefixRoutes are the endpoints that create, change and delete aggregates and
-- prefixes, Requests a sequence of them. The table of aggregates has a unique column, which is a
-- test before each insert or change, and the deletion of an aggregate sets the key of its prefixes
-- to null. Utilization is `_aggregate_utilization`, whose rounded percentage is an argument,
-- `percent`, in tenths. Resolve is `_resolve_aggregate_id_for_prefix`, Merge the two loops that the
-- imports of NetBox and phpIPAM share; sessions do not flush before a query, so that a loop reads
-- the rows committed and not those that it has added. Json is the JSON that the two services send,
-- Phpipam and Netbox the reading of their rows (netops-backend/services/phpipam_import.py and the
-- second half of netops-backend/routes/ipam_router.py), Imports the imports as a whole. What the
-- services answer is an argument.
--
-- Auth: netops-backend/auth/*.py, netops-backend/routes/auth.py and netops-backend/routes/users.py.
-- Store is the tables and the record `Crypto` of the libraries, whose laws are that a password is
-- verified against its own hash and that nothing is against no hash. Http is replies and
-- exceptions with the tables that are left. Audit, Tokens, Totp, Rbac, Users and Ldap are the
-- services; the directory server is a record `Directory` without laws. Login, SecondFactor,
-- Sessions and UserRoutes are the endpoints. Addresses and agents of clients are left out of the
-- events, and so are the texts of exceptions inside messages. The endpoints for the refresh and the
-- revocation of tokens are not modelled, since they call functions that are nowhere defined. Totp has
-- the clean-up of netops-backend/main.py as well. A numeric subject of a token is read in ASCII digits.
--
-- Process: netops-backend/app. Definitions is processes and their versions
-- (app/api/process_management.py), Jobs the table of jobs and the moves between their statuses
-- (app/services/job.py), Publish the publication, which joins the two, Devices the validation and
-- the lists of devices of app/process_designer/code_generator.py. A JSONB column is the text of its
-- value, and what the driver sends back for it is a function. JSON is the record `Json`; the next
-- run of a schedule is a function. Runs is the execution of a job: its first commit, what the nodes
-- lead to, and its last commits. What other requests commit in between is the function `during`.
-- The record `Runner` is what an execution calls: the reading of JSON, the text of the program, the
-- subprocess with its three endings, and whether a scan or an inspection raises.
--
-- Connections: netops-backend/utils/connection_manager.py. Manager is the pool of connections of a
-- device configuration, where what is done under its lock is one step; its release and its clean-up
-- are lists of actions of a task, with the lock and the other tasks, since `asyncio.Lock` also
-- waits for its own holder. The connect and the credential service are arguments. The rows are read
-- as the file uses them: the classes that it imports for them are not declared, and no other file
-- imports it yet. Devices is netops-backend/utils/device_connection_manager.py where Redis is not
-- there. Its retries recurse on the attempts that are left; its loops recurse on the entries that
-- they read.
--
-- Config: netops-backend/routes/config_module.py over the tables of
-- netops-backend/database/config_module_models.py. Backups, Policies and Reports are the endpoints
-- that change the tables, with the foreign keys as tests; Compliance is the run of policies on
-- backups, Schedules the plans of such runs, whose lists of devices are texts of JSON, Xml the
-- export and import of reports, on documents that are trees of elements. The devices of a type
-- (`_get_backup_devices_filtered_by_device_type`) and `re.search` are arguments. Times of results
-- and of changes are left out.
--
-- Not modelled: the frontend, migrations and scripts; discovery, DHCP and scans, which call outside
-- services; the connection pool manager and the branches that use Redis; the texts of configurations;
-- policies as files and the end-of-support table of config_module.py; lists with filters and pages.
pub mod Prelude
pub mod Ipam
pub mod Auth
pub mod Process
pub mod Connections
pub mod Config
