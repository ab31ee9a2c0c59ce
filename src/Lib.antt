-- ===== src/Lib.antt =====
-- sshinner: a tunnel through a public server. A DAEMON client exposes its services, a USR client uses
-- them, and the server joins their connections; a DAEMON client also runs SOCKS5 and DNS proxies
-- whose traffic the server takes out to the network, encrypted with RC4-MD5 on the way.
--
-- The parts, and the files that model them:
--   Run         how a C function ends: with a value and a state (`ok`), or by `stop`: `aborted` for
--               SYS_ABORT and a failed assert, `exited` for exit, `faulted` for a read or a write
--               through NULL or an address with no object, and for a bufferevent that is freed a
--               second time, `spun` for a loop whose fuel ran out.
--   Slist       include/st_slist.h: the intrusive singly linked list, on a heap of `next` links.
--   Protocol    include/sshinner.h: the packet head `CTL_HEAD` and its constants.
--   Crypt       common/sshinner_crypt.c: the contexts and frames of the stream encryption.
--   Json        the settings file settings.json, as json-c reads it for both programs.
--   Pool        server/source/sshinner_s_threads.c, the start of the worker threads: the main thread and
--               the workers in steps over their lock, their counter and their condition variable.
--   Server      server/include/sshinner_s.h: accounts, sessions (`ACTIV_ITEM`), transfers
--               (`TRANS_ITEM`), worker queues. Below it:
--     Memory    reads and writes of these objects, `calloc`, and what is done to the outside.
--     Uuid      server/source/sshinner_s_data.c: the search tree of the sessions.
--     Trans     server/source/sshinner_s_data.c: the transfers of a session.
--     Account   server/source/sshinner_s_data.c: the accounts, and the removal of a session.
--     Init      server/source/sshinner_s_event.c, `ss_main_handle_init`, and the replies of
--               server/source/sshinner_s_utils.c.
--     Relay     server/source/sshinner_s_event.c: the packets CONN, SS5 and DNS.
--     Dispatch  server/source/sshinner_s_event.c: the callbacks of the control connections.
--     Worker    server/source/sshinner_s_threads.c, `thread_process` and `dns_query_cb`.
--     Transfer  server/source/sshinner_s_threads.c: the callbacks of the data connections.
--     Start     server/source/server.c, `main`, and `load_settings_server` of
--               server/source/sshinner_s_utils.c.
--     Consistent  how the objects above hang together; its child Reach has the states that callbacks,
--               in any order, lead to. The other children show that each callback keeps the objects
--               together.
--   Client      client/include/sshinner_c.h: the port table, the transfers and the control connection of
--               a client. Below it, Portmap and Trans: client/source/sshinner_c_utils.c; Control:
--               client/source/sshinner_c_event.c, with the answers of sockets as an argument `Net`;
--               Register: the packets of client/source/sshinner_c_utils.c that a client registers and
--               asks with, over a `PacketEnv`; Proxy: the SOCKS5 proxy of
--               client/source/sshinner_c_sockets.c and sshinner_c_threads.c; Dns: the DNS proxy of
--               client/source/sshinner_c_dns.c and client.c; Settings: `load_settings_client` of
--               client/source/sshinner_c_utils.c; Start: `main` of client/source/client.c, over the
--               answers of a `Machine`. Consistent: how the client's list, its transfers and the blocks
--               of `calloc` hang together; its child Reach has the states that callbacks, in any order,
--               lead to from the end of `main`'s start.
--   Wire        the packets from a client to the server, as both programs see them: what they agree
--               on (`Matches`), the registration of a DAEMON client, a USR client that joins a session,
--               a SOCKS5 request, the two halves of a SOCKS5 transfer (Opening), and its bytes in both
--               directions (Tunnel, Exchange).
--   Examples    tests, and the theorems applied to a small server and a small client.
--
-- Functions keep their names without the prefixes `ss_`, `sc_`, `slist_` and `thread_`; a part of a
-- function that is a definition of its own says so above it.
--
-- How they interact: a packet on a control connection comes to `Dispatch.main_bufferread_cb`, which
-- calls `Init.handle_init`, `Relay.handle_ctl`, `Relay.handle_ss5` or `Relay.handle_dns`. The last
-- three make a transfer or find it, put the socket into a worker's queue, and write a letter to its
-- pipe; `Worker.thread_process` takes it from there and gives the transfer its two ends, and the
-- callbacks of `Transfer` move the bytes between them until one end closes.
--
-- State: a server is a record with a store from addresses to objects for each kind of object; 0 is
-- NULL. A lookup of an address that holds no object stops with `faulted`, so a use of a freed
-- transfer is seen. `supply` is the list of blocks that `calloc` will return, and an empty list or
-- a 0 is a failure. Between two callbacks `Reach` may change `supply`, so that a freed block can be
-- returned again. Everything that reaches the outside is appended to `trace`, in order. A
-- list of objects is a list of addresses there; Slist shows what its C operations do. Whether a
-- bufferevent has been freed is read off `trace` (`Trans.is_freed`), where a session ends
-- (`Trans.free_live`), since a transfer can still name the bufferevent that `Relay.handle_proxy`
-- freed. `free_trans`, which runs in a callback of the transfer's own ends, and the other uses of a
-- bufferevent are not tested for that.
--
-- What is not under the repository's own control is a parameter: OpenSSL is `Crypt.Evp`; json-c,
-- sd-id128, zlib, RSA, libevent, the layout of a head in memory, and the rebalancing calls of the
-- copy of the Linux kernel's red-black tree are fields of `Server.Env`. Theorems name what they use
-- of them: `IsRc4` (a byte stream cipher that is its own inverse), `KeepsOrder` (`rb_insert_color`
-- keeps the order of a tree, `rb_erase` removes one node), `Removes` (`evbuffer_remove` takes bytes
-- off the front), `Matches` (the client and the server lay out heads alike and have the two halves of
-- a key), `Cuts` (the network delivers a stream in reads that are not empty). The answers of sockets
-- and of the allocator of bufferevents are arguments.
--
-- Loops: lists and trees are walked by structural recursion. The loops of Slist, and the loop that
-- reads a body in Dispatch, run on fuel; the length of the list and one round, and the bytes that are
-- wanted and one round, are enough.
--
-- Numbers: `unsigned short` ports are taken modulo 2 ^ 16 and `slist_count` modulo 2 ^ 32, where the
-- code converts; a machine id is the number that its 16 bytes spell.
--
-- Not modelled: locks and the interleaving of threads within a callback (each callback is one step; the
-- threads are interleaved only at their start, in Pool), signals, the set-up of OpenSSL and libevent,
-- what is released behind the event loops, and printing. `connect` and the socket options are answers
-- that the callers are given.
pub mod Base
pub mod Run
pub mod Slist
pub mod Protocol
pub mod Crypt
pub mod Json
pub mod Pool
pub mod Server
pub mod Client
pub mod Wire
pub mod Examples
