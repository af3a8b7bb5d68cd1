-- ===== src/Lib.antt =====
-- The C code of the firmware in ccs_project/src that is its own: containers, the message bus, the
-- table of links, the queue of Bluetooth operations, the log, the handlers of the host and of channel
-- sounding, the start of the host, the profiles, the driver and OS layers, and the demonstration tasks.
-- Everything below is a model of that code, function by function and under its names.
--
-- Prelude: commands on a state (`Run` has a result, a fault, a wait that nobody ends, or a loop out
--   of fuel), arrays as lists, sums over arrays, masks. The POSIX semaphore is a parameter (`Os`).
-- Hal/Mutex and Hal/Event: hal_mutex_t and hal_event_t of hal/hal_os_api.c. The containers and the
--   log hold a mutex. Hal/Rtos: the tasks, delays and timers of that file over FreeRTOS, which is a
--   parameter that sees all calls before. Hal/Drv: hal/hal_drv_api.c over the vendor's drivers, which
--   are a parameter that sees all calls before; Hal/Drv/Order: any history of its operations,
--   Hal/Drv/Ports: the serial ports.
-- Libc: `qsort` and `bsearch` as parameters with their documented behaviour; Libc/Models has
--   functions that have it.
-- KvList: lib/kv_list. A table of `depth` nodes under keys; children: State (the types), Valid (what
--   a well-formed table is), Init, Add, Remove, Search, Stored, Undo (a removal after an addition),
--   Sort, Walk, At (`kv_list_at`), Reach (any history of calls), Items and Bag (the table as a bag of
--   entries, a quotient of lists by order), Tasks (several tasks at one table, the parts of their
--   calls in any order).
-- Links: lib/linked_list/list_algo_macro.h over an explicit memory of links; Chain says what a list
--   is. LwList: lib/linked_list/lw_list.c on top of it, against a double-ended queue (Refine).
-- LinkedList: lib/linked_list/linked_list.c on top of Links. Slots (with Init, Scan, Alloc) hands out
--   the nodes of an array, Heap those of the heap, Ends (with Deque, Find) works on the list, Sort
--   sorts it. `malloc` is a parameter that gives NULL or memory that is not in use.
-- MsgBus: lib/msg_bus. Its queue is a LinkedList on the heap and its topics are KvLists; Init, Queue
--   (producing), Deliver (one message), Consume (all of them) and RoundTrip (from the registration of a
--   topic to its call). What a callback does to the rest of the program is a parameter.
-- RunnerUart and RunnerGpio: runner/runner_uart.c and runner/runner_gpio.c, each a task and its
--   interrupt as a step relation, in any order, on Hal/Drv: the drivers answer as they like in each
--   state, and a read that they complete calls the handler that the port was opened with. RunnerLog:
--   any number of rounds of runner/runner_log.c.
-- BleAdv and BleScan: ble_adv.c and ble_scan.c of module/ble/adv_scan, the advertising sets and the
--   scan; the stack is a parameter.
-- BleStart: module/ble/ble_task.c and module/ble/host/ble_host_init.c, the start of the host, with the
--   copy of the device's data (lib/ble_dev_info.h) that each of the two files has. Framework:
--   module/framework and main.c, which starts the log and the host before the scheduler.
-- Profiles: module/ble/Profiles, over the vendor's services, which are parameters with a state.
-- BitState: lib/util/bit_state.h. BleOpQueue: module/ble/adv_scan/ble_op_queue.c, which matches the
--   states of its operations with it. A runner is a function of its parameter, and does not call the
--   queue that it is run from; Process is one call of `ble_opq_process` or several, Start any history
--   of the other operations.
-- Log: lib/log. Buffer and Format are log_format.c, with every store checked against the buffer;
--   Print is log.c and log_backend.c, which make a line by Format and send it under the mutex; Devices
--   is log_backend_uart.c, on Hal/Drv, and log_backend_itm.c.
-- BleCs: module/ble/cs, the handler of the stack's events; the stack is a parameter whose answers
--   may depend on all calls before. As in other parts, State has the types. Safety is that of the
--   handlers, Copy the copy of a continuation: the blocks of the heap are tracked, and to free one
--   twice, or to store behind it, is a fault.
-- BleLink: module/ble/lib/ble_link.c, the connections in a KvList; Table is one call on it, RoundTrip
--   an addition and the removal after it. BleHost: the handlers of
--   module/ble/host/ble_host_event_handler.c that work on them; Events is one event, RoundTrip a
--   connection from its beginning to its end. Util: the integer macros of
--   lib/util/util_tool.h and module/ble/lib/ble_util.c; Util/SpinLock: the lock of its atomic macros, for
--   any number of tasks in any order.
--
-- Pointers are indices or addresses, NULL is `none` or 0, an access outside an object is a fault.
-- Numbers keep the width that the code gives them where it matters (`% 2 ^ w`). Some loops run on
-- fuel: that of `kv_list_at`, which need not end, with `count + 1` rounds where it does, those of
-- LIST_NODE_EXISTS, `linked_list_search` and the searches that a macro defines, with one round more
-- than the list has nodes, and that of `mbus_consume_call`, with one round more than messages wait.
--
-- Not modelled: ext, which is third-party code; the parameters of scans, connections and profiles,
-- which are constants of the generated configuration; the restart of the system in
-- module/framework/fwk_util.c, a call of the vendor's SDK that does not return. What the code writes to
-- its log while it works is left out, but for main.c and runner/runner_log.c, which do little else.
pub mod Prelude
pub mod Hal
pub mod Libc
pub mod KvList
pub mod Links
pub mod LwList
pub mod MsgBus
pub mod BitState
pub mod BleAdv
pub mod BleScan
pub mod BleStart
pub mod BleOpQueue
pub mod Log
pub mod BleCs
pub mod BleLink
pub mod Util
pub mod BleHost
pub mod LinkedList
pub mod RunnerUart
pub mod Framework
pub mod RunnerLog
pub mod Profiles
pub mod RunnerGpio
