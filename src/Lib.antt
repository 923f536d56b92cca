-- ===== src/Lib.antt =====
-- clpsz-demos: a collection of C programs, of which these files model the ones with logic of
-- their own.
--
-- The serial protocol (linux/uart_communicate_protocol). Two devices exchange packets over a
-- serial line: a header of six bytes ('@', '>', length, checksum, command, serial number) and
-- data. One thread reads the line byte by byte (ser_cmd_rcv), assembles a packet in a block
-- from malloc, checks it (_mac_parse), and hands it on: a command goes to its handler
-- (ser_cmd_dealcmd), which writes an answer, and an answer goes to the thread that waits in
-- ser_cmd_send, through two variables of ser_hal.c.
--   Uart/Packet.antt    ser_cmd.h, _build_pkt, _mac_parse, _ser_calc_checksum of ser_cmd.c: a
--                       packet is a block of bytes, a field is read at its offset.
--   Uart/State.antt     the heap (blocks by address), the static variables of ser_cmd.c and
--                       ser_hal.c, what was written to the line, what was printed; the calls of
--                       ser_hal.c on them. `Host` is the C library and the kernel: a malloc
--                       that may fail, and what write(2) returns.
--   Uart/Command.antt   ser_handler.c, _find_handler, ser_cmd_reply and ser_cmd_dealcmd.
--   Uart/Read.antt      ser_hal_read, which delivers the bytes, over the answers of select and
--                       read.
--   Uart/Receive.antt   ser_cmd_rcv: rcv_byte is one turn of its loop.
--   Uart/Send.antt      ser_cmd_send; the bytes that arrive while it sleeps are a list of slices.
--   Uart/Main.antt      main.c: the options and the array of _send_10; init_serial, ser_hal_init
--                       and ser_cmd_init.
--   Uart/Main/Loop.antt  _send_10 in the endless loop of the sending device.
--   Uart/Decode.antt    not code: what a receiver should make of a stream of bytes.
--   Uart/Pair.antt      not code: two devices, each of which reads what the other one writes.
-- A computation of type M takes the state and returns a result and the new state, or `none`
-- where C leaves the behaviour undefined: an access outside a block, or a call of NULL. The
-- infinite loop of ser_cmd_rcv is structural recursion on the bytes that arrive, the waiting
-- loop of ser_hal_rcvreply structural recursion on the slices, and the loops over a buffer run
-- down its length; no definition of the protocol runs on fuel. An unsigned byte wraps at 2 ^ 8.
--
-- The terminal demo (linux/uart_send_recv/main.c).
--   Terminal.antt       main and its calls, and the flags that init_serial sets, which the serial
--                       protocol shares; the masks of termios.h and cfsetospeed are parameters.
--
-- The JSON list tools (cJSON/manipulate_list.c, json_wrap.c, main.c). They read a list of
-- resources, and write a list with fewer members, or shell commands that link the packages.
--   Json.antt           the cJSON calls as an interface (CJson) and what cJSON documents of them
--                       (Laws); the library, a copy of another project, is not modelled.
--   Json/Text.antt      strlen, strncpy, strncmp, "%s" and sprintf on blocks.
--   Json/Wrap.antt      json_wrap.c; files are a function from names to contents.
--   Json/Lists.antt     simplify_reslist, simplify_category, mk_fake_list and main.
--   Json/Links.antt     make_new_map; the commands given to system are a list.
-- The children Titles, Members, Categories and Unquote are proofs over that interface.
-- A value is the tree below a pointer and NULL is `none`. What free and cJSON_Delete give back
-- is left out.
--
-- The debugging tools (debug_tools/debug.h, debug.c, main.c; the other programs have copies).
--   Debug.antt          the dumps of a buffer: _hex_dump, and __dump of the serial protocol.
--   Debug/Levels.antt   the messages with a level, HEX_DUMP and _daemon_printf. What a format prints
--                       is an argument; a write past one of the buffers of 512 bytes is `none`. The
--                       digits of a number are found on as many rounds as the number and one more:
--                       each round takes a digit off.
--
-- Local sockets (linux/domain_socket/socket.c, main.c).
--   Domain.antt         the three calls, over a kernel that may refuse each system call; the
--                       state is the open descriptors and the names in the file system.
--   Domain/Demo.antt    main.c: what the parent and the child do after the fork.
--
-- Netlink messages (linux/netlink_socket/netlink_kernel.c, netlink_user.c).
--   Netlink.antt        real_send of the process, and kernel_receive and nl_send_to_user of the
--                       module; NLMSG_SPACE, alloc_skb and what lies behind the string literals
--                       are parameters. g_pid is its 32 bits.
--   Netlink/Life.antt   netlink_init and netlink_exit, and the module as the kernel loads, uses and
--                       removes it.
--   Netlink/Process.antt  main and the receiving thread of the process; the thread runs before
--                       and after the message is sent. Netlink/Process/Answers.antt joins the
--                       two: the process gets what the module sends to its pid.
--
-- Daemons (linux/daemonize/daemonize.c).
--   Daemon.antt         daemonize, over a kernel that may refuse each call, and that gives new
--                       descriptors the lowest free number; a failed call is only reported, as in
--                       the code, and the reports are left out.
--
-- The inventory (linux/linux_libconfig/main.c).
--   Inventory.antt      main and its two loops; libconfig, a copy of another project, is an
--                       interface (Config).
--
-- The options demo (linux/linux_getopt/main.c).
--   Getopt.antt         opt, opt_long and main, on the answers of getopt and getopt_long.
--   Getopt/Documented.antt  what getopt_long documents that it answers, from the letters and the
--                       table of the program.
--
-- The list that is fetched (linux/libcurl/blacklist.c, main.c).
--   Blacklist.antt      write_callback and the request of get_blacklist; libcurl is the list of
--                       chunks that it hands to the callback.
--   Blacklist/Demo.antt  main.c: what is printed.
--
-- The packet hook (linux/netfilter_frame/netfilter.c).
--   Netfilter.antt      hook_out, sknf_init and sknf_exit; the counter is an int of 32 bits.
--   Netfilter/Life.antt  the module as the kernel loads, calls and removes it.
--
-- The semaphore demo (linux/posix_semaphore/main.c).
--   Semaphore.antt      the next call of each of the two threads, for any scheduler.
--
-- The kernel's lists (linux/linux_kernel_list/main.c).
--   KernelList.antt     main and its loops over two arrays; list.h, a copy of the kernel's, is an
--                       interface (ListHeads).
--
-- Not modelled: the threads of the serial protocol themselves (the model runs the receiving
-- thread while the sending one sleeps); the vendored libraries (cJSON.c, libconfig, list.h);
-- generated code; programs in other languages; the demos of a few calls each of a library
-- (sqlite, Lua, kernel modules).
pub mod Base
pub mod Blacklist
pub mod Daemon
pub mod Debug
pub mod Domain
pub mod Getopt
pub mod Inventory
pub mod Json
pub mod KernelList
pub mod Netfilter
pub mod Netlink
pub mod Semaphore
pub mod Terminal
pub mod Uart
