-- ===== src/Lib.antt =====
-- A verification library of seapath-webui, the web service that administers a SEAPATH node: who may
-- call it, the Ansible runs that it launches one at a time, the consoles that it opens, the keys that it
-- installs and knows, and the copies of the inventory that it pushes.
--
-- The parts. A request carries a cookie; `app/core` resolves it to a session, refuses a forged request
-- and asks for a role. A handler then calls the service of the runs, `app/runs`: it resolves the
-- machines that a run plays against the groups of the inventory (`app/inventory`), freezes the files
-- that it plays, and starts it once it holds the one run lock, or leaves it to the dispatcher of the
-- queue. Each run is a directory of the store, which prunes the oldest and closes at a
-- start the runs that the last process left behind. A console (`app/console`) is opened on a machine or
-- a guest of the inventory, while fewer than the most are open.
-- A run reaches a machine with the keys of `app/trust`, which shares `authorized_keys` with the site and
-- keeps a record of the host keys that an operator accepted. A replication pushes the inventory's
-- repository to the machines that it declares, over ssh, and reports what git answered of each.
--
-- The files.
--   Common                    texts as lists of code points, lists, options, dictionaries in insertion
--                             order (Common/Dict), sets of names (Common/Names), integers (Common/Int),
--                             `int` of a text (Common/Numerals), `splitlines` and `split` (Common/Lines)
--   Core/Auth                 app/core/auth.py: roles, `role_for`, `_is_member`
--   Core/Sessions             app/core/sessions.py: the session store and its signed cookies
--   Core/Activity             app/core/activity.py
--   Core/Security             app/core/security.py: `current_session`, `require_user`, `require_role`, and
--                             `CsrfMiddleware.dispatch`
--   Runs/Models               app/runs/models.py: the record of a run
--   Runs/Store                app/runs/store.py: records, the lock, `prune`, `list`, `reconcile`; `events`,
--                             `append_event`, `log` in Runs/Store/Streams, `compact` in
--                             Runs/Store/Compaction
--   Runs/Catalogue            app/runs/catalogue.py: what an entry says
--   Runs/Checks               app/runs/service.py: the head of `_launch`: `_check_controller`,
--                             `_blocking`, `_unmet_preconditions` and what they call (Preconditions),
--                             `_accepted_variables` (Variables), `_checked_value` (Values)
--   Hosts/Cpus                app/hosts/local.py: `parse_cpu_list`
--   Runs/Service              app/runs/service.py: `_launch` from the choice of starting or waiting,
--                             `_stage`, `_begin`, `_spawn`, `_enqueue`
--   Runs/Service/Queue        app/runs/service.py: a round of `_dispatch`, `cancel`, `queued`, `going`
--   Runs/Service/Ending       app/runs/service.py: `_final_state`, `_final_message`, the end of `_execute`
--   Runs/Service/Advice       app/runs/service.py: `_connection_advice`, `_first_error`
--   Runs/Service/Drain        the loop of `_dispatch`, one run played to its end after the other
--   Runs/Service/System       the threads of the service as a step relation
--   Runs/Progress             app/runs/progress.py: `apply_event` and what it calls; `summarise` in
--                             Runs/Progress/Summary
--   Runs/Scope                app/runs/scope.py: `plan` and `_default`, given what the playbook's `hosts:`
--                             lines match; `_matching` and `_names_guests` in Runs/Scope/Matching;
--                             `choices`, `_accept_the_single_choice` and `_ordered` in
--                             Runs/Scope/Choices
--   Inventory/Resolve         app/inventory/resolve.py: `members`
--   Inventory/Groups          app/inventory/resolve.py: `groups`; `depths` and `resolve` in
--                             Inventory/Groups/Depths
--   Inventory/Repository      app/inventory/repository.py: `head`, `remote_state`, `push`, `_run`
--   Inventory/Replication     app/inventory/replication.py: `targets`, `survey`, `replicate`;
--                             `build_ssh_command`, `remote_helper` in Inventory/Replication/Ssh
--   Trust/AuthorizedKeys      app/trust/authorized_keys.py: `install`, `remove`, `installed`, `_write`
--   Trust/KnownHosts          app/trust/known_hosts.py: the record of accepted keys and the file ssh
--                             reads; `ensure_local`, `add_local`, `recorded_names` in Trust/KnownHosts/Local
--   Trust/KeyScan, Trust/BackupServer, Trust/SiteKey   app/trust/keyscan.py, app/trust/backup_server.py,
--                             app/trust/site_key.py, and `guest_trust` of app/trust/service.py
--   Trust/Service             app/trust/service.py: `ensure_self_trust`, `relations`, `revoke`
--   Inventory/Model           app/inventory/model.py: machines, guests, and what is asked of them
--   Inventory/Rules           app/inventory/validation.py: the rules on the number of machines and on guests
--   Console/Targets           app/console/service.py: `targets`, `resolve`
--   Console/Routes            app/console/service.py: `serial_route`, `graphic_route`
--   Console/Commands          app/console/service.py: `serial_command`, `graphic_command`, and `shlex.quote`
--   Console/Window            app/console/service.py: `clamp_window`
--   Console/Sessions          app/console/service.py: `open`, `open_graphic`, `close`, interleaved
--   Examples                  (in Core, Console, Inventory, Trust, Runs, Runs/Checks, Runs/Progress and
--                             Runs/Scope) the theorems applied to concrete states
-- The other files hold the proofs, each named for what it proves.
--
-- How state is modelled. A service or a store is a record that each operation takes and gives back; an
-- exception is a value of the operation's result. The clock, the drawn tokens and what staging a tree
-- gives are arguments. What the file system refuses is part of the state or an argument: the writing of
-- a record and the removal of a run (`Store`), the wiping of hashes (`Service`), what is raised once a
-- run is about to play (`Start`), the deletion of the lock and the compactions of a start (`StartFaults`),
-- the system calls of a write of `authorized_keys` (`Fault`). Nothing refuses the release of the lock,
-- and a refused write leaves nothing behind. The HMAC is a parameter of the sections that
-- use it. A directory of the store holds a record or none that can be read. A name of the model's own
-- stands for each sentence that a record's message can be. Every loop is structural recursion on a
-- list, a text or a tree, and the rounds of `depths` on their number, but for the loop of `members`,
-- which runs on fuel: one unit more than the number of all children of all groups, which `members-Below`
-- shows to be enough. `_dispatch` is modelled by its round, which the step relation and `drain` repeat.
--
-- Not modelled: the audit trail and the logs, the results of a run, the listeners of a run's end beyond
-- their record, PAM, names and attributes of cookies, and the other packages of app/ (api, cluster,
-- logs, services, ui; of inventory, all but the groups, the model, the replication and a few rules; of
-- hosts, all but the lists of CPUs; of console, the relay and the transports). What git, ssh, the
-- cryptography library, `json.dumps` and `str.lower` answer is an argument.
pub mod Common
pub mod Core
pub mod Inventory
pub mod Console
pub mod Hosts
pub mod Runs
pub mod Trust
