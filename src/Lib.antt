-- ===== src/Lib.antt =====
-- A verification library for the programs of this journal: the DNS64 resolver under
-- dns64_query_c/dns_v6 (dnsquery.c, dnsquery.h), the older resolver for one server
-- (dns64_query_c/dnsquery.c), the C++ resolver for both families (dnsquery/dnsquery.cc), the TCP hole
-- punching server and peer under tcp打洞测试/p2p_transfer_tcp (p2p_transfer_server/ and
-- p2p_transfer_peer/) with their logger, and the program that maps IPv4 addresses into IPv6 under
-- ipv6测试/rfc6052.
--
-- The resolver turns a host name or an IPv4 address into IPv6 addresses on a NAT64 network. Its entry
-- point getaddrinfo_v6 starts three threads, each of which asks one DNS64 server through
-- socket_gethostbyname, and polls the list of addresses that they share. An IPv4 address is resolved
-- by a query for ipv4only.arpa, whose answer shows the network's NAT64 prefix.
--
--   Dns.Nat64       GetSuffixZeroCount, IsNat64AddrValid, ReplaceNat64WithV4IP
--   Dns.Name        ChangetoDnsNameFormat, ReadName
--   Dns.Packet      DNS_HEADER, QUESTION, PrepareDnsQueryPacket
--   Dns.Answers     R_DATA, RES_RECORD, ReadRecvAnswer, and the loop of socket_gethostbyname over them
--   Dns.Receive     RecvWithinTime, and the three attempts of socket_gethostbyname
--   Dns.Host        socket_gethostbyname
--   Dns.Threads     th_socket_gethostbyname, th_gethostbyname
--   Dns.Resolver    getaddrinfo_api, isValidIpv4Address, getaddrinfo_v6
--   Dns.Single      dns64_query_c/dnsquery.c: socket_gethostbyname, getaddrinfo_v6
--   Dns.Dual        dnsquery/dnsquery.cc: PrepareDnsQueryPacket, ReadRecvAnswer,
--                   socketv6_gethostbyname, socketv4_gethostbyname, checknetfamily,
--                   socket_gethostbyname
--
-- The older resolver runs the same functions on one server and without threads, so that Dns.Single has
-- only what differs, and Dns.Dual only what differs for the two families.
--
-- The server keeps a list of the devices whose pings it has received, each with the connection it came
-- over and its public address. A peer asks it about another device; the server tells that device to
-- punch a hole, and tells the one that asks where it is.
--
--   P2p.Message     p2p_transfer.h: the messages
--   P2p.Transfer    p2p_transfer.c: get_string_network_type, set_sock_opt
--   P2p.Devices     what the server relies on of list.h, as an interface
--   P2p.Server      p2p_transfer_server.c: process_ping_cmd, process_query_device_info_cmd,
--                   send_punch_hole_cmd_to_peer, conn_read_cb, conn_event_cb, listener_cb, main
--   P2p.Peer        p2p_transfer_peer.c: connect_peer, punch_hole, process_punch_hole_cmd_cb, ping_cb,
--                   user_cb, conn_read_cb, conn_event_cb
--   P2p.Client      p2p_transfer_peer.c: init, listen_local, connect_server, the timers, main, uninit
--   P2p.Hole        server and peers together
--   P2p.Log         log.c: configure_log, destroy_log, logging
--
-- The mapping program reads the length of the prefix from a file of settings and an IPv4 address from
-- its input, and forms the IPv6 address of RFC 6052.
--
--   Rfc6052.Address   ipv4toipv6.cpp: ipv4toipv6
--   Rfc6052.Config    confload.cpp: load_config
--   Rfc6052.Program   ipv4toipv6.cpp: main
--
-- Base holds what all parts share: lists and tests on native numbers, and the outcome of a piece of C,
-- which is a value, an access that C leaves undefined (`fault`), a failed assertion (`aborted`), or an
-- exhausted bound (`out_of_fuel`).
-- Dns.Memory holds C strings and buffers as lists of bytes. A struct is a record, a pointer into the
-- receive buffer an index, and a NULL pointer `none`.
--
-- Bounds: ReadName's loop runs on fuel, since it need not end; a name of n bytes needs n + 1 rounds.
-- The conversion after it has a bound of its own, which it never reaches. The other loops are
-- recursions on their number of rounds. The threads are a step relation, so that every interleaving is
-- a path of steps.
--
-- Parameters: the network (what sendto, select and recvfrom do on each attempt), the allocator (which
-- allocations succeed and how large a block is), inet_pton, inet_ntop, getaddrinfo, getpid, libevent
-- (which callbacks come in which order, what has arrived, and which writes succeed), the contents of
-- the settings file and of memory that is not set, and the text of the time and of a log message. The
-- values of the socket options are those of Linux, and sizes those of a 64-bit machine.
--
-- Not modelled: FreeAll, close, the messages on standard output, and the address of the server; the
-- host name that the three threads share and each extend by a dot is a parameter of every query, and
-- Dns.Host.Dots is about its dots. dnsquery/dns_v6/dnsquery.c is an earlier copy of dns64_query_c/dns_v6/dnsquery.c, with other names
-- for its mutexes and a loop without a pause in th_gethostbyname. GetHostDnsServerIP of dnsquery.cc is
-- code of each platform, and what it finds is not used. nat64_prefix_util.cc is a file of Tencent Mars,
-- and list.h another project's. The test programs call a function and print.
pub mod Base
pub mod Dns
pub mod P2p
pub mod Rfc6052
