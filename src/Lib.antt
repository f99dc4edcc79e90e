-- ===== src/Lib.antt =====
-- Knpodly backend: virtual machines for a computing lab, launched from a web page.
--
-- A request of the web page is a coroutine of the FastAPI process. A launch stores a queued row in
-- vm_sessions and puts a job into the arq queue; a vm-worker takes the job, creates the overlay
-- file, claims a VNC port in Redis and starts the domain through libvirt. The scheduler sweeps
-- the running sessions for expiry and idleness, and a timer runs the collection of orphaned
-- domains. All of them share the database, Redis, the overlay directory and the hypervisor. Users
-- log in for tokens, lecturers and admins manage accounts, limits and maintenance and upload images,
-- and a scan of the image directory fills the catalogue from which a launch chooses.
--
-- Each coroutine is a function from the shared state to a result or an exception and the state
-- after it (Exec.antt); what was done before an exception stays done, as with the commits of the
-- source. The processes and files (paths from the root of the repository):
--   Base, Base/*       names of the libraries, integers, lists
--   Exec, Exec/*       coroutines, their runs and their guards
--   Models, Models/*   the rows of the tables: backend/app/models
--   Config             backend/app/core/config.py
--   Text               os.path.join, str and hex of a UUID, str of an int
--   World              the shared state; backend/app/services/audit.py, the events of redis_bus.py
--                      and the queue of core/arq_pool.py
--   World/Tables       the indexes of vm_sessions: infra/postgres/init/001_schema.sql
--   World/Saves        what a commit and a refresh do to a loaded row
--   Policy             get_active_policy: backend/app/services/policy.py
--   Libvirt            the two drivers: backend/app/services/libvirt_client.py
--   Overlay            overlay files and VNC ports: backend/app/services/overlay_manager.py
--   Overlay/Workers    replicas of the worker that share the Redis set of ports
--   DomainXml          backend/app/services/domain_xml.py
--   Lifecycle          launch_vm, provision_vm, stop_vm, extend_session, record_activity:
--                      backend/app/services/vm_lifecycle.py
--   Workers            provision_vm and teardown_vm of backend/app/workers/vm_worker.py, the sweep
--                      of scheduler.py and the run of gc_orphaned_vms.py
--   Workers/Resync     the watcher of the image directory in scheduler.py, as steps of its tasks
--   Api, Api/Vms       the role guard of backend/app/api/v1/deps.py and the routes of
--                      backend/app/api/v1/routers/vms.py
--   Api/Console        the token of a console socket: backend/app/api/v1/routers/console.py
--   RateLimit          login attempts in Redis: backend/app/services/rate_limit.py
--   Security           the claims of tokens: backend/app/core/security.py
--   World/Accounts     the table users, its keys and its commits
--   Api/Users          backend/app/api/v1/routers/users.py
--   Api/Auth           backend/app/api/v1/routers/auth.py, and get_current_user of deps.py
--   Api/Admin          maintenance, limits and statistics: backend/app/api/v1/routers/admin.py
--   Files              the files under the image and the icon directory
--   ImageDiscovery     the scan of the image directory and its copy into operating_systems:
--                      backend/app/services/image_discovery.py
--   Api/Images         uploads and the rescan: backend/app/api/v1/routers/images.py
--   Api/Sockets        the connection manager and the activity socket:
--                      backend/app/api/v1/routers/ws.py
--   RedisBus           the channel of events and the listener of each API process:
--                      backend/app/services/redis_bus.py
--   ConsoleProxy       the relay of console bytes: backend/app/services/console_proxy.py
--   Startup            the lifespan of backend/app/main.py, the pool of core/arq_pool.py, and
--                      scripts/create-admin.py
--   Python             built-in functions of Python that are parameters
--   System             all of these actions in any order, and the VNC ports through them
--   Tests              sample states and runs
--
-- A row object in hand is a record: an assignment and its commit are `save`, which changes the
-- stored row and the object alike, and `db.refresh` reads the row again. The database refuses a
-- commit that breaks an index. The clock and the source of UUIDs are streams. Where coroutines wait in
-- between, as in the ports, the broadcasts, the watcher, the bus and the relay, a relation has their
-- steps, each from one wait to the next.
--
-- Bounds: times are integers of microseconds and integers are unbounded, so the ranges of datetime
-- and of the integer columns and the lengths of text columns are not modelled. The loop over the VNC
-- ports takes 1000 rounds, one for each port of its range; other loops go over lists, that of an
-- upload over the chunks that its reads return. Decimal digits are computed with the number
-- itself as fuel, which has fewer digits than its value plus one.
--
-- Parameters, since their code is not in the repository: libvirt-python (LibvirtApi in
-- Libvirt/Qemu), the qemu-img command, bcrypt and the JWT library (Crypto in Security, with their
-- documented laws), Python's tables and decoders (Builtins in Python: case and classes of Unicode,
-- floats, JSON, SHA-256, the reading of a UUID), and the texts of events (Wire in RedisBus). Redis
-- (sets, counters, INCR, EXPIRE) is modelled by the documented behaviour of the commands that the
-- code sends, and so are PostgreSQL and its driver: keys, NOT NULL, the defaults of columns, the
-- refusal of a value that is no text, and the rollback of a transaction.
--
-- Not modelled: the checks of pydantic on requests; the lists of audit rows and of the catalogue,
-- which only read; what a broadcast misses when connections are taken away during it; two resyncs
-- whose transactions overlap; the RuntimeError of `get_arq_pool` in a request to a process that has
-- no pool; StaleDataError, for an UPDATE that matches no row; the type of the column actor_role; the
-- wiring of FastAPI, SQLAlchemy, Alembic and argparse, and the endless loops, which repeat a modelled
-- body; failures of the database, of Redis or of the file system; foreign keys and the unique index
-- on libvirt_domain_name; and the frontend.
pub mod Base
pub mod Exec
pub mod Models
pub mod Config
pub mod Text
pub mod Libvirt
pub mod Python
pub mod Security
pub mod RateLimit
pub mod Files
pub mod World
pub mod Policy
pub mod Overlay
pub mod DomainXml
pub mod Lifecycle
pub mod ImageDiscovery
pub mod Workers
pub mod Api
pub mod RedisBus
pub mod ConsoleProxy
pub mod Startup
pub mod System
mod Tests
