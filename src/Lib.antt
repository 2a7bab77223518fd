-- ===== src/Lib.antt =====
-- Convert2RHEL: the framework of its actions, the backups it rolls back, and the conversion that
-- composes them.
--
-- A conversion is main_locked (convert2rhel/main.py). It runs the actions before the point of no
-- return in two linked stages, then those behind it in two more, and looks at their results after
-- each: an action that failed or was skipped ends it. Actions push the changes that can be undone
-- on a backup controller. An end of the run between the first action and the point of no return,
-- also that of an analysis, pops them all.
--
-- Prelude holds what the modules share: equality tests, lists, Python's sorted and truth of
-- values, dictionaries as association lists in their order, and exceptions with a type of
-- results. Prelude.Text has Python's str methods on the characters of a text. Utils models parts of
-- convert2rhel/utils/__init__.py: format_sequence_as_message, hide_secrets, remove_pkgs, download_pkg
-- and flatten.
--
-- Actions models convert2rhel/actions/__init__.py. Message: STATUS_CODE and the classes
-- ActionMessageBase, ActionMessage and ActionResult. Action: the class Action; a subclass is its
-- id, its dependencies and the body of its run, which is data: calls of set_result and
-- add_message, acts on a world of any type, exceptions. Order: resolve_action_order, whose
-- generator is the list of what it yields with the error behind it. Stage: Stage.run and
-- Stage.check_dependencies, where a stage and those that next_stage links behind it are a list.
-- Outcomes: parse_action_results, find_actions_of_severity, run_pre_actions and run_post_actions.
--
-- Report models convert2rhel/actions/report.py: how results and messages are combined, the order
-- and the headings of the summary, the entries of summary_as_txt, and find_highest_report_level.
-- Phase models convert2rhel/phase.py, with the names that iterating over a class gives. Backup
-- models BackupController of convert2rhel/backup/__init__.py over any class of changes, and
-- Backup.Files the classes of convert2rhel/backup/files.py over the calls of os, shutil and
-- hashlib. Main models convert2rhel/main.py by state passing: Main.Steps has the locals, the
-- phases, the controller and the world that a step changes, and the environment, which holds
-- every call of another part or of the system as a function that may raise and change the world.
-- The locals of the model also note each call of pop_all for a rollback and of run_post_actions.
-- Main.Triples has rules for conditions on the locals. Main.Locked is the wrapper main, which takes
-- the lock of the application.
--
-- Applock models ApplicationLock of convert2rhel/applock.py on a machine with one pid file; in
-- Applock.Processes any number of processes each make one call of the system at a time, by a step
-- relation. Toolopts models convert2rhel/toolopts/__init__.py, whose objects are dictionaries of
-- attributes; Toolopts.Server is convert2rhel/utils/subscription.py, Toolopts.Config the
-- configuration files and Toolopts.Commands the command line of convert2rhel/toolopts/config.py, with
-- the default subcommand of convert2rhel/cli.py. Packages models convert2rhel/pkghandler.py: formats and lists of
-- packages, Packages.Parse and Packages.Compare their names and versions, and Packages.Kernels the
-- choice of a kernel and the version locks. Repos models call_yum_cmd of
-- convert2rhel/pkgmanager/__init__.py and convert2rhel/repo.py. Backup.Packages, Backup.Certs and
-- Backup.Subscriptions model packages.py, certs.py and subscription.py of convert2rhel/backup, by the
-- methods of Backup.Methods.
--
-- Prelude.Calls is state passing for code that calls the outside world, with try and finally, and
-- Prelude.Costs what such calls add to a count and how they leave the world. Subscription models
-- convert2rhel/subscription.py: Subscription.Commands what runs subscription-manager,
-- Subscription.Command and Subscription.Register the class RegistrationCommand with its call over
-- D-Bus, Subscription.Attempts register_system, and Subscription.Needed the packages.
-- Subscription.Rollback gives these functions to the changes of Backup.Subscriptions.
-- Transactions models convert2rhel/pkgmanager/handlers: Transactions.Session is the attribute _base
-- and run_as_child_process, Transactions.Rounds the loop of the yum transaction, Transactions.Yum
-- and Transactions.Dnf the handlers over the methods of YumBase and dnf.Base.
--
-- Grub models convert2rhel/grub.py: Grub.Paths its texts, Grub.Devices the partitions, Grub.Entries the
-- entries that efibootmgr lists, and Grub.Replace the new entry and the removal of the original one.
--
-- Systeminfo models convert2rhel/systeminfo.py: Systeminfo.Version the version and the release that it is
-- converted to, Systeminfo.Config the options of the configuration file of a system, and
-- Systeminfo.Services commands and the loop that waits for D-Bus, which is given four rounds.
--
-- The while loop of resolve_action_order runs on a bound, the count that the loop starts from:
-- each round leaves fewer, and the proofs show that the loop ends by its own test. A process alone
-- takes seven calls at most for the lock, which run_alone is given. valid_repos calls itself for
-- fewer repositories each time, and is given their number. The octal digits of a file's mode are given
-- the mode itself as a bound. register_system is given four rounds and the yum
-- transaction five, and neither bound is met: the loops are equal to three attempts and to four
-- rounds. A question to the user is given a bound of answers. No other function needs a bound.
--
-- Not modelled: what is logged, colours and wrapped lines; the actions themselves;
-- what convert2rhel/systeminfo.py calls in turn at the start; breadcrumbs and logs; and
-- get_actions, which imports the modules of a directory. rpm, yum, hawkey, configparser, argparse,
-- urllib and the classes of characters of re are parameters, and so are the text and the traceback of
-- an exception.
pub mod Prelude
pub mod Utils
pub mod Actions
pub mod Report
pub mod Phase
pub mod Backup
pub mod Applock
pub mod Toolopts
pub mod Packages
pub mod Repos
pub mod Subscription
pub mod Transactions
pub mod Grub
pub mod Systeminfo
pub mod Main
